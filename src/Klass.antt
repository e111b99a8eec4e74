-- ===== src/Klass.antt =====
-- src/object.c, include/object.h: classes, the line of classes that a lookup of a member follows, and the
-- places of the fields in an object.
-- A class is an address in `Classes`; `any` is `Any_Klass`. A member table is the list of its members in
-- the order in which they entered it: HashTable shows that an entry with a name that is taken is refused.
-- A name is a list of bytes. Allocations are granted. Reference counts are not modelled.
pub mod Line
pub mod Layout
pub mod Lookup
pub mod Fields
mod Tests
use koala_lang_pre.Prelude.{
  ◌==◌, if◌then◌else◌, length, get_or, bytes_eq, ℕ, zero, suc, ◌+◌, ◌-◌, Bool, true, false, Option,
  none, some, List, [], ◌∷◌, ◌++◌,
}

pub data MemberKind : Type 0 where
  const_kind var_kind func_kind proto_kind class_kind trait_kind : MemberKind

pub record MNode : Type 0 where
  pub name : List ℕ
  pub kind : MemberKind
  pub offset : ℕ

pub record LroNode : Type 0 where
  pub klazz : ℕ
  pub offset : ℕ

pub record Klass : Type 0 where
  pub nrvars : ℕ
  pub totalvars : ℕ
  pub lro : List LroNode
  pub mtbl : List MNode

abbrev pub Classes : Type 0
Classes = ℕ → Klass

abbrev pub any : ℕ
any = 0

abbrev pub write : Classes → ℕ → Klass → Classes
write classes a k b = if a == b then k else classes b

-- `Find_MNode`
unfoldable pub find_mnode : List MNode → List ℕ → Option MNode
find_mnode [] name = none
find_mnode (m ∷ ms) name =
    let rest = find_mnode ms name in if bytes_eq m.name name then some m else rest

-- `HashTable_Insert` of a member, whose result the callers do not read.
unfoldable pub insert_mnode : List MNode → MNode → List MNode
insert_mnode ms m = elim (find_mnode ms m.name) [ none ↦ ms ++ m ∷ [] | some old ↦ ms ]

unfoldable pub lro_find : List LroNode → ℕ → Bool
lro_find [] klazz = false
lro_find (node ∷ lro) klazz = if node.klazz == klazz then true else lro_find lro klazz

-- The line that is being built, and the offset that is next.
pub record Build : Type 0 where
  pub line : List LroNode
  pub next : ℕ

-- A new node at the end of the line.
abbrev pub place : Classes → Build → ℕ → Build
place classes b klazz = record {
  line = b.line ++ record { klazz = klazz; offset = b.next } ∷ [];
  next = b.next + (classes klazz).nrvars;
}

-- The inner loop of `lro_build`, over the line of one base.
unfoldable pub add_line : Classes → List LroNode → Build → Build
add_line classes [] b = b
add_line classes (node ∷ nodes) b =
    add_line classes nodes (if lro_find b.line node.klazz then b else place classes b node.klazz)

-- The outer loop, over the bases.
unfoldable pub add_bases : Classes → List ℕ → Build → Build
add_bases classes [] b = b
add_bases classes (base ∷ bases) b = add_bases classes bases (add_line classes (classes base).lro b)

-- `lro_build` for a class whose line is empty.
unfoldable pub lro_build : Classes → ℕ → List ℕ → Classes
lro_build classes klazz bases =
    let b = add_bases classes bases (place classes (record { line = []; next = 0 }) any) in
    write classes klazz (record (classes klazz) {
      totalvars = b.next;
      lro = b.line ++ record { klazz = klazz; offset = b.next } ∷ [];
    })

-- `Init_Klass`
unfoldable pub init_klass : Classes → ℕ → List ℕ → Classes
unfolding lro_build
init_klass classes klazz bases =
    lro_build (write classes klazz (record (classes klazz) { lro = []; mtbl = [] })) klazz bases

-- `Klass_Add_Field`: the member gets its offset after it was offered to the table.
unfoldable pub add_field : Classes → ℕ → List ℕ → Classes
add_field classes klazz name =
    let k = classes klazz in
    write classes klazz (record k {
      nrvars = k.nrvars + 1;
      totalvars = k.totalvars + 1;
      mtbl = insert_mnode k.mtbl (record { name = name; kind = var_kind; offset = k.nrvars });
    })

-- `Klass_Add_Method` and `Klass_Add_Proto`, by the kind.
unfoldable pub add_member : Classes → ℕ → MemberKind → List ℕ → Classes
add_member classes klazz kind name =
    let k = classes klazz in
    write classes klazz
      (record k { mtbl = insert_mnode k.mtbl (record { name = name; kind = kind; offset = 0 }) })

abbrev pub no_node : LroNode
no_node = record { klazz = any; offset = 0 }

-- The first loop of `__get_m`: the index of the class in the line, counted down to nought.
unfoldable pub index_of : List LroNode → ℕ → ℕ → ℕ
index_of line klazz zero = 0
index_of line klazz (suc i) =
    let lower = index_of line klazz i in
    if (get_or line (suc i) no_node).klazz == klazz then suc i else lower

-- `memcmp(name, "super.", 6)`, and what follows the prefix.
unfoldable pub strip_super : List ℕ → Option (List ℕ)
strip_super (a ∷ b ∷ c ∷ d ∷ e ∷ f ∷ rest) =
    if bytes_eq (a ∷ b ∷ c ∷ d ∷ e ∷ f ∷ []) (b's' ∷ b'u' ∷ b'p' ∷ b'e' ∷ b'r' ∷ b'.' ∷ [])
    then some rest
    else none
strip_super _ = none

-- The second loop: the node of the line and the member in its class.
unfoldable pub search : Classes → List LroNode → List ℕ → ℕ → Option (LroNode × MNode)
search classes line name zero = none
search classes line name (suc i) =
    let lro = get_or line (suc i) no_node in
    let lower = search classes line name i in
    elim (find_mnode (classes lro.klazz).mtbl name) [ some m ↦ some (lro, m) | none ↦ lower ]

-- The search after the test of the prefix, which takes the class below for `super.`; below the index
-- nought there is nothing to search either.
unfoldable pub search_from :
    Classes → List LroNode → List ℕ → ℕ → Option (List ℕ) → Option (LroNode × MNode)
search_from classes line name index none = search classes line name index
search_from classes line name index (some rest) = search classes line rest (index - 1)

-- `__get_m` for an object of class `klazz`.
unfoldable pub get_m : Classes → ℕ → ℕ → List ℕ → Option (LroNode × MNode)
get_m classes klazz base name =
    let line = (classes klazz).lro in
    search_from classes line name (index_of line base (length line - 1)) (strip_super name)

-- The assertion on the kind, and the sum.
unfoldable pub place_of : Option (LroNode × MNode) → Option ℕ
place_of none = none
place_of (some (lro, m)) = elim m.kind [ var_kind ↦ some (lro.offset + m.offset) | _ ↦ none ]

-- The index that `Get_Field` and `Set_Field` use; `none` where an assertion fails.
unfoldable pub field_index : Classes → ℕ → ℕ → List ℕ → Option ℕ
unfolding place_of
field_index classes klazz base name = place_of (get_m classes klazz base name)
