-- ===== src/Klass/Fields.antt =====
-- The fields that a lookup leads to lie in the object, each in its own place.
use koala_lang_pre.Prelude.{
  ◌==◌, Option-cases, if_ind, length, get_or, ℕ, zero, suc, ◌+◌, ◌-◌, ◌≤◌, ◌<◌, ◌≡◌, refl, sym, ap,
  ◌∙◌, subst, ◌⊎◌, inl, inr, true, Option, none, some, List, [], ◌∷◌, ◌++◌, arith,
}
use koala_lang_pre.Klass.{
  MNode, LroNode, Klass, Classes, no_node, var_kind, find_mnode, insert_mnode, lro_build,
  init_klass, index_of, strip_super, get_m, place_of, field_index, add_field,
}
use koala_lang_pre.Klass.Line.{IsConsecutive, IsConsecutive-snoc}
use koala_lang_pre.Klass.Layout.{IsLaidOut}
use koala_lang_pre.Klass.Lookup.{Nearest, Searches, begins, plain, get_m-Searches, index_of-le}

IsConsecutive-le :
    (classes : Classes) (line : List LroNode) (start last : ℕ)
    → IsConsecutive classes line start last
    → start ≤ last
IsConsecutive-le classes [] start last h = omega arith
IsConsecutive-le classes (n ∷ line) start last h =
    omega (arith, IsConsecutive-le classes line _ last h.1)

-- The fields of a node end before the next ones begin, and within the object.
IsConsecutive-within :
    (classes : Classes) (line : List LroNode) (start last j : ℕ)
    → IsConsecutive classes line start last
    → j < length line
    → let node = get_or line j no_node in
      (start ≤ node.offset) × (node.offset + (classes node.klazz).nrvars ≤ last)
IsConsecutive-within classes [] start last j h lt = absurd (omega arith)
IsConsecutive-within classes (n ∷ line) start last zero h lt =
    (omega (arith, h.0), omega (arith, h.0, IsConsecutive-le classes line _ last h.1))
IsConsecutive-within classes (n ∷ line) start last (suc j) h lt =
    let ih = IsConsecutive-within classes line _ last j h.1 (omega arith) in
    (omega (arith, ih.0), ih.1)

IsConsecutive-apart :
    (classes : Classes) (line : List LroNode) (start last i j : ℕ)
    → IsConsecutive classes line start last
    → i < j
    → j < length line
    → (get_or line i no_node).offset + (classes (get_or line i no_node).klazz).nrvars
      ≤ (get_or line j no_node).offset
IsConsecutive-apart classes [] start last i j h lt lt' = absurd (omega arith)
IsConsecutive-apart classes (n ∷ line) start last i zero h lt lt' = absurd (omega arith)
IsConsecutive-apart classes (n ∷ line) start last zero (suc j) h lt lt' =
    omega (arith, h.0, (IsConsecutive-within classes line _ last j h.1 (omega arith)).0)
IsConsecutive-apart classes (n ∷ line) start last (suc i) (suc j) h lt lt' =
    IsConsecutive-apart classes line _ last i j h.1 (omega arith) (omega arith)

IsLaidOut-IsConsecutive :
    (classes : Classes) (klazz : ℕ)
    → IsLaidOut classes klazz
    → IsConsecutive classes (classes klazz).lro 0 (classes klazz).totalvars
IsLaidOut-IsConsecutive classes klazz v =
    subst (λ (line : List LroNode). IsConsecutive classes line 0 (classes klazz).totalvars)
      (sym v.split)
      (subst (IsConsecutive classes (v.front ++ record { klazz = klazz; offset = v.own } ∷ []) 0)
        (sym v.total) (IsConsecutive-snoc classes v.front 0 v.own klazz v.consecutive))

-- The offsets of the fields of each class are below the number of its fields.
unfoldable pub IsFielded : Classes → Type 0
IsFielded classes =
    (a : ℕ) (name : List ℕ) (m : MNode)
    → find_mnode (classes a).mtbl name ≡ some m
    → m.kind ≡ var_kind
    → m.offset < (classes a).nrvars

-- A field that a lookup found: its class's index in the line, and the field among those of the class.
record IsField (classes : Classes) (line : List LroNode) (lro : LroNode) (m : MNode) : Type 0 where
  index : ℕ
  inside : index < length line
  node : get_or line index no_node ≡ lro
  below : m.offset < (classes lro.klazz).nrvars

begins-le : (index : ℕ) (o : Option (List ℕ)) → begins index o ≤ index
begins-le index none = omega arith
begins-le index (some rest) = omega arith

get_m-IsField :
    (classes : Classes) (klazz base : ℕ) (name : List ℕ) (lro : LroNode) (m : MNode)
    → IsFielded classes
    → get_m classes klazz base name ≡ some (lro, m)
    → m.kind ≡ var_kind
    → IsField classes (classes klazz).lro lro m
unfolding IsFielded
get_m-IsField classes klazz base name lro m fielded e var =
    let line = (classes klazz).lro in
    let index = index_of line base (length line - 1) in
    let o = strip_super name in
    let n : Nearest classes line (plain name o) (begins index o) lro m =
      subst (Searches classes line (plain name o) (begins index o)) e
        (get_m-Searches classes klazz base name) in
    let most : n.index ≤ length line - 1 =
      omega (arith, n.within, begins-le index o, index_of-le line base (length line - 1)) in
    record {
      index = n.index;
      inside = omega (arith, n.above);
      node = n.node;
      below =
          fielded lro.klazz (plain name o) m
            (ap (λ (x : LroNode). find_mnode (classes x.klazz).mtbl (plain name o)) (sym n.node)
              ∙ n.has)
            var;
    }

place_of-some :
    (o : Option (LroNode × MNode)) (i : ℕ)
    → place_of o ≡ some i
    → (lro : LroNode) × (m : MNode) × (o ≡ some (lro, m))
      × (m.kind ≡ var_kind)
      × (lro.offset + m.offset ≡ i)
unfolding place_of
place_of-some none i h = absurd (ground arith)
place_of-some (some (lro, m)) i h = (lro, m, refl, ground arith, ground arith)

IsField-bounded :
    (classes : Classes) (klazz : ℕ) (lro : LroNode) (m : MNode)
    → IsLaidOut classes klazz
    → IsField classes (classes klazz).lro lro m
    → lro.offset + m.offset < (classes klazz).totalvars
IsField-bounded classes klazz lro m v f =
    let line = (classes klazz).lro in
    let w =
      IsConsecutive-within classes line 0 (classes klazz).totalvars f.index
        (IsLaidOut-IsConsecutive classes klazz v) f.inside in
    let end : lro.offset + (classes lro.klazz).nrvars ≤ (classes klazz).totalvars =
      subst (λ (x : LroNode). x.offset + (classes x.klazz).nrvars ≤ (classes klazz).totalvars)
        f.node w.1 in
    omega (arith, f.below)

-- In a class that is laid out, the index of a field that is read or written is below `totalvars`, which
-- is the size of the object.
pub field_index-bounded :
    (classes : Classes) (klazz base : ℕ) (name : List ℕ) (i : ℕ)
    → IsLaidOut classes klazz
    → IsFielded classes
    → field_index classes klazz base name ≡ some i
    → i < (classes klazz).totalvars
unfolding field_index
field_index-bounded classes klazz base name i v fielded h =
    let (lro, m, e, var, sum) = place_of-some (get_m classes klazz base name) i h in
    let b =
      IsField-bounded classes klazz lro m v
        (get_m-IsField classes klazz base name lro m fielded e var) in
    omega arith

fields_apart :
    (classes : Classes) (klazz : ℕ) (lro lro' : LroNode) (m m' : MNode)
    → IsLaidOut classes klazz
    → (f : IsField classes (classes klazz).lro lro m)
    → (f' : IsField classes (classes klazz).lro lro' m') → f.index < f'.index
    → lro.offset + m.offset < lro'.offset + m'.offset
fields_apart classes klazz lro lro' m m' v f f' lt =
    let line = (classes klazz).lro in
    let w =
      IsConsecutive-apart classes line 0 (classes klazz).totalvars f.index f'.index
        (IsLaidOut-IsConsecutive classes klazz v) lt f'.inside in
    let from : lro.offset + (classes lro.klazz).nrvars ≤ (get_or line f'.index no_node).offset =
      subst
        (λ (x : LroNode).
          x.offset + (classes x.klazz).nrvars ≤ (get_or line f'.index no_node).offset)
        f.node w in
    let to : lro.offset + (classes lro.klazz).nrvars ≤ lro'.offset =
      subst (λ (x : LroNode). lro.offset + (classes lro.klazz).nrvars ≤ x.offset) f'.node from in
    omega (arith, f.below)

-- In a class that is laid out, two fields that lookups find lie at the same index only if they are found
-- in the same class at the same offset.
pub get_m-apart :
    (classes : Classes) (klazz base base' : ℕ) (name name' : List ℕ) (lro lro' : LroNode)
    (m m' : MNode)
    → IsLaidOut classes klazz
    → IsFielded classes
    → get_m classes klazz base name ≡ some (lro, m)
    → get_m classes klazz base' name' ≡ some (lro', m')
    → m.kind ≡ var_kind
    → m'.kind ≡ var_kind
    → lro.offset + m.offset ≡ lro'.offset + m'.offset
    → (lro ≡ lro') × (m.offset ≡ m'.offset)
get_m-apart classes klazz base base' name name' lro lro' m m' v fielded e e' var var' same =
    let f = get_m-IsField classes klazz base name lro m fielded e var in
    let f' = get_m-IsField classes klazz base' name' lro' m' fielded e' var' in
    let up = fields_apart classes klazz lro lro' m m' v f f' in
    let down = fields_apart classes klazz lro' lro m' m v f' f in
    let index : f.index ≡ f'.index = ground arith in
    let node : lro ≡ lro' =
      sym f.node ∙ ap (λ (i : ℕ). get_or (classes klazz).lro i no_node) index ∙ f'.node in
    (node, omega (arith, ap (λ (x : LroNode). x.offset) node))

find_mnode-snoc :
    (ms : List MNode) (m : MNode) (name : List ℕ) (r : MNode)
    → find_mnode (ms ++ m ∷ []) name ≡ some r
    → (find_mnode ms name ≡ some r) ⊎ (m ≡ r)
unfolding find_mnode
find_mnode-snoc [] m name r h = ground arith
find_mnode-snoc (n ∷ ms) m name r h = ground (arith, find_mnode-snoc ms m name r)

find_mnode-insert :
    (ms : List MNode) (m : MNode) (name : List ℕ) (r : MNode)
    → find_mnode (insert_mnode ms m) name ≡ some r
    → (find_mnode ms name ≡ some r) ⊎ (m ≡ r)
unfolding insert_mnode
find_mnode-insert ms m name r h = elim (Option-cases (find_mnode ms m.name)) [
  | inl e ↦ find_mnode-snoc ms m name r (rw (e, insert_mnode) at h)
  | inr (o, e) ↦ inl (rw (e, insert_mnode) at h)
]

-- Adding a field to a class keeps the offsets of all fields below the number of fields of their class.
pub add_field-IsFielded :
    (classes : Classes) (klazz : ℕ) (name : List ℕ)
    → IsFielded classes
    → IsFielded (add_field classes klazz name)
unfolding add_field IsFielded
add_field-IsFielded classes klazz name v a other m h var =
    let k = classes klazz in
    let new : MNode = record { name = name; kind = var_kind; offset = k.nrvars } in
    let P = λ (c : Klass). find_mnode c.mtbl other ≡ some m → m.offset < c.nrvars in
    if_ind P (klazz == a)
      (λ _ g. elim (find_mnode-insert k.mtbl new other m g) [
        | inl old ↦ omega (arith, v klazz other m old var)
        | inr e ↦ omega (arith, ap (λ (x : MNode). x.offset) e)
      ])
      (λ _ g. v a other m g var) h

-- A new class has no members.
pub init_klass-IsFielded :
    (classes : Classes) (klazz : ℕ) (bases : List ℕ)
    → IsFielded classes
    → IsFielded (init_klass classes klazz bases)
unfolding init_klass lro_build IsFielded find_mnode
init_klass-IsFielded classes klazz bases v a other m h var =
    let P = λ (c : Klass). find_mnode c.mtbl other ≡ some m → m.offset < c.nrvars in
    let same : (klazz == klazz) ≡ true = ground arith in
    if_ind P (klazz == a) (λ _ g. absurd (ground arith))
      (λ _. if_ind P (klazz == a) (λ _ g. absurd (ground arith)) (λ _ g. v a other m g var)) h
