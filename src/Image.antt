-- ===== src/Image.antt =====
-- src/image.c, include/image.h: the items of a compiled module, the tables that hold them, and the calls
-- that add to an image and read it back.
-- An item is a value of its struct; an `int32` that is an index is `none` where it is -1. The items of an
-- image are an AtomTable whose entries are compared by the functions of their type. A string is the list
-- of its bytes before the NUL; a NULL path of a class is the empty one. Memory for items is granted.
-- The constants that are floats and truth values are left out: their items are compared or hashed by
-- address.
pub mod Items
pub mod Key
pub mod Read
pub mod Module
pub mod Ready
pub mod Appends
pub mod Types
pub mod Reads
pub mod Parts
pub mod Sets
pub mod Lists
pub mod Protos
pub mod Laws
pub mod Format
pub mod File
mod Tests
use koala_lang_pre.Prelude.{set, ℕ, Bool, true, Option, none, some, List, [], ◌∷◌, map}
use koala_lang_pre.TypeDesc.{Base, TypeDesc, TypeList, base_kind, get_basic}
use koala_lang_pre.TypeDesc as Desc
use koala_lang_pre.HashTable.{Heap}
use koala_lang_pre.AtomTable.{AtomEntry, AtomTable, new, append, index}
use koala_lang_pre.Image.Items.{Ref, TypeItem, ConstItem, Item}
use koala_lang_pre.Image.Items
use koala_lang_pre.Image.Key.{entry_key}

-- An assertion that fails ends the program: `none`.
infixl 5 ◌>>=◌
abbrev pub ◌>>=◌ : {A B : Type 0} → Option A → (A → Option B) → Option B
none >>= k = none
some a >>= k = k a

-- The table of an image.
abbrev pub Table : Type 0
Table = AtomTable Item

abbrev pub item_string : ℕ
item_string = 1

abbrev pub item_type : ℕ
item_type = 2

abbrev pub item_typelist : ℕ
item_typelist = 3

abbrev pub item_proto : ℕ
item_proto = 4

abbrev pub item_const : ℕ
item_const = 5

abbrev pub item_locvar : ℕ
item_locvar = 6

abbrev pub item_var : ℕ
item_var = 7

abbrev pub item_func : ℕ
item_func = 8

abbrev pub item_code : ℕ
item_code = 9

abbrev pub item_class : ℕ
item_class = 10

abbrev pub item_field : ℕ
item_field = 11

abbrev pub item_method : ℕ
item_method = 12

abbrev pub item_trait : ℕ
item_trait = 13

abbrev pub item_nfunc : ℕ
item_nfunc = 14

abbrev pub item_imeth : ℕ
item_imeth = 15

abbrev pub item_max : ℕ
item_max = 16

-- The table of `KImage_New`, in a memory whose addresses from `next` on are free.
unfoldable pub image_new : (ℕ → Bool) → Heap (AtomEntry Item) → ℕ → Option Table
image_new malloc heap next = new malloc heap next item_max

-- `StringItem_Get`
abbrev pub stringitem_get : Table → List ℕ → Ref
stringitem_get t str = index t item_string (Item.string str)

-- `klass->path.str`, which may be NULL: an index that is -1, or the -1 that is returned at once.
unfoldable pub path_get : Table → List ℕ → Option Ref
path_get t [] = some none
path_get t (c ∷ path) = elim (stringitem_get t (c ∷ path)) [ none ↦ none | some i ↦ some (some i) ]

abbrev pub find_type : Table → TypeItem → Ref
find_type t item = index t item_type (Item.type item)

-- `TypeItem_Get` of a class.
unfoldable pub klass_get : Table → List ℕ → List ℕ → Ref
unfolding path_get
klass_get t path type = elim (path_get t path) [
  | none ↦ none
  | some p ↦ elim (stringitem_get t type) [
    | none ↦ none
    | some n ↦ find_type t (TypeItem.klass p (some n))
  ]
]

-- `ProtoItem_Get`
abbrev pub protoitem_get : Table → Ref → Ref → Ref
protoitem_get t rindex pindex = index t item_proto (Item.proto rindex pindex)

-- The search of `TypeListItem_Get` for the types that it has found; an empty list is -1, and so is one with a
-- type that is not there.
abbrev pub list_get : Table → Option (List Ref) → Ref
list_get t none = none
list_get t (some []) = none
list_get t (some (r ∷ rs)) = index t item_typelist (Item.typelist (r ∷ rs))

unfoldable mutual
  -- `TypeItem_Get`; `none` where the assertion on the kind fails.
  pub typeitem_get : Table → TypeDesc → Option Ref
  typeitem_get t (TypeDesc.base b) = some (find_type t (TypeItem.primitive (base_kind b)))
  typeitem_get t (TypeDesc.klass path type) = some (klass_get t path type)
  typeitem_get t (TypeDesc.proto args rets) = do
    rs ← typeitems_get t rets
    ps ← typeitems_get t args
    some (find_type t (TypeItem.proto (protoitem_get t (list_get t rs) (list_get t ps))))
  typeitem_get t (TypeDesc.array dims elem) = do
    r ← typeitem_get t elem
    some (find_type t (TypeItem.array dims r))
  typeitem_get t (TypeDesc.map key val) = none
  typeitem_get t (TypeDesc.set elem) = none
  typeitem_get t (TypeDesc.varg elem) = do
    r ← typeitem_get t elem
    some (find_type t (TypeItem.varg r))

  -- The loop of `TypeListItem_Get`; it ends at the first type that is not there.
  pub typeitems_get : Table → TypeList → Option (Option (List Ref))
  typeitems_get t TypeList.nil = some (some [])
  typeitems_get t (TypeList.cons desc more) = do
    r ← typeitem_get t desc
    rest ← elim r [ none ↦ some none | some i ↦ typeitems_get t more ]
    some
        (elim r [ none ↦ none | some i ↦ elim rest [ none ↦ none | some rs ↦ some (some i ∷ rs) ] ])

-- `TypeListItem_Get`
unfoldable pub typelistitem_get : Table → TypeList → Option Ref
unfolding typeitems_get
typelistitem_get t desc = do rs ← typeitems_get t desc; some (list_get t rs)

module _ (malloc : ℕ → Bool) where
  -- A unique item that was looked for: its index, or that at which it is appended.
  unfoldable pub set_unique : Table → ℕ → Item → Option (Table × ℕ)
  set_unique t type d = elim (index t type d) [
    | none ↦ append malloc t type d true
    | some i ↦ some (t, i)
  ]

  -- `StringItem_Set`
  unfoldable pub stringitem_set : Table → List ℕ → Option (Table × ℕ)
  unfolding set_unique
  stringitem_set t str = set_unique t item_string (Item.string str)

  -- The path of a class in `TypeItem_Set`; NULL is -1.
  unfoldable pub path_set : Table → List ℕ → Option (Table × Ref)
  unfolding stringitem_set
  path_set t [] = some (t, none)
  path_set t (c ∷ path) = do r ← stringitem_set t (c ∷ path); some (r.0, some r.1)

  -- What `TypeItem_Set` returns for a type that it found, and `add` for one that it did not.
  abbrev pub or_add : Table → Option Ref → Option (Table × ℕ) → Option (Table × ℕ)
  or_add t none add = none
  or_add t (some none) add = add
  or_add t (some (some i)) add = some (t, i)

  abbrev pub append_type : Table → TypeItem → Option (Table × ℕ)
  append_type t item = append malloc t item_type (Item.type item) true

  -- The end of `TypeListItem_Set`.
  abbrev pub append_list : Table × List Ref → Option (Table × Ref)
  append_list r = do
    s ← append malloc r.0 item_typelist (Item.typelist r.1) true
    some (s.0, some s.1)

  -- The same for a list, whose index is -1 if it is empty.
  abbrev pub or_add_list : Table → Option Ref → Option (Table × Ref) → Option (Table × Ref)
  or_add_list t none add = none
  or_add_list t (some none) add = add
  or_add_list t (some (some i)) add = some (t, some i)

  unfoldable mutual
    -- `TypeItem_Set`
    pub typeitem_set : TypeDesc → Table → Option (Table × ℕ)
    typeitem_set (TypeDesc.base b) t =
        or_add t (typeitem_get t (TypeDesc.base b))
          (append_type t (TypeItem.primitive (base_kind b)))
    typeitem_set (TypeDesc.klass path type) t =
        or_add t (typeitem_get t (TypeDesc.klass path type)) do
          p ← path_set t path
          n ← stringitem_set p.0 type
          append_type n.0 (TypeItem.klass p.1 (some n.1))
    typeitem_set (TypeDesc.proto args rets) t =
        or_add t (typeitem_get t (TypeDesc.proto args rets)) do
          r ← typelistitem_set rets t
          p ← typelistitem_set args r.0
          i ← set_unique p.0 item_proto (Item.proto r.1 p.1)
          append_type i.0 (TypeItem.proto (some i.1))
    typeitem_set (TypeDesc.array dims elem) t =
        or_add t (typeitem_get t (TypeDesc.array dims elem))
          do b ← typeitem_set elem t; append_type b.0 (TypeItem.array dims (some b.1))
    typeitem_set (TypeDesc.map key val) t = none
    typeitem_set (TypeDesc.set elem) t = none
    typeitem_set (TypeDesc.varg elem) t =
        or_add t (typeitem_get t (TypeDesc.varg elem))
          do b ← typeitem_set elem t; append_type b.0 (TypeItem.varg (some b.1))

    -- `TypeListItem_Set`
    pub typelistitem_set : TypeList → Table → Option (Table × Ref)
    typelistitem_set TypeList.nil t = some (t, none)
    typelistitem_set (TypeList.cons desc more) t =
        or_add_list t (typelistitem_get t (TypeList.cons desc more)) do
          r ← typeitem_set desc t
          rs ← typeitems_set more r.0
          append_list (rs.0, some r.1 ∷ rs.1)

    -- The loop of `TypeListItem_Set`.
    pub typeitems_set : TypeList → Table → Option (Table × List Ref)
    typeitems_set TypeList.nil t = some (t, [])
    typeitems_set (TypeList.cons desc more) t = do
      r ← typeitem_set desc t
      rs ← typeitems_set more r.0
      some (rs.0, some r.1 ∷ rs.1)

  -- `ProtoItem_Set`
  unfoldable pub protoitem_set : Table → TypeList → TypeList → Option (Table × ℕ)
  unfolding typelistitem_set set_unique
  protoitem_set t args rets = do
    r ← typelistitem_set rets t
    p ← typelistitem_set args r.0
    set_unique p.0 item_proto (Item.proto r.1 p.1)
