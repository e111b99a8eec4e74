-- ===== src/Image/Types.antt =====
-- `TypeItem_Get` on the simple descriptors, which hold no function type, map or set: where it finds a
-- type, in a table that has grown and in what the table was, and what is read back from the index.
use koala_lang_pre.Prelude.{
  Option-cases, ℕ, suc, ◌<◌, ◌≡◌, sym, ap, subst, inl, inr, none, some, List, [], ◌∷◌, arith,
}
use koala_lang_pre.TypeDesc.{TypeDesc, base_kind}
use koala_lang_pre.AtomTable.{size}
use koala_lang_pre.AtomTable.Laws.{get-index}
use koala_lang_pre.Image.Items.{Ref, TypeItem, Item}
use koala_lang_pre.Image.Key.{entry_key, entry_equal_iff}
use koala_lang_pre.Image.{
  Table, item_string, item_type, stringitem_get, path_get, find_type, klass_get, typeitem_get,
}
use koala_lang_pre.Image.Ready.{BelowOrNull, IsReady, Grows}

-- Descriptors of basic types and classes, of their arrays and their variable arguments.
abbrev pub IsSimple : TypeDesc → Type 0
IsSimple (TypeDesc.base b) = Unit {0}
IsSimple (TypeDesc.klass path type) = Unit {0}
IsSimple (TypeDesc.proto args rets) = ⊥
IsSimple (TypeDesc.array dims elem) = IsSimple elem
IsSimple (TypeDesc.map key val) = ⊥
IsSimple (TypeDesc.set elem) = ⊥
IsSimple (TypeDesc.varg elem) = IsSimple elem

abbrev pub depth : TypeDesc → ℕ
depth (TypeDesc.array dims elem) = suc (depth elem)
depth (TypeDesc.varg elem) = suc (depth elem)
depth desc = 0

-- Where a class was found.
pub record FindsKlass (t : Table) (path type : List ℕ) (i : ℕ) : Type 0 where
  pub path_ref : Ref
  pub type_ref : ℕ
  pub has_path : path_get t path ≡ some path_ref
  pub has_type : stringitem_get t type ≡ some type_ref
  pub has_item : find_type t (TypeItem.klass path_ref (some type_ref)) ≡ some i

pub klass_get-Finds :
    (t : Table) (path type : List ℕ) (i : ℕ)
    → klass_get t path type ≡ some i
    → FindsKlass t path type i
unfolding klass_get
klass_get-Finds t path type i h = elim (Option-cases (path_get t path)) [
  | inl e ↦ absurd (ground arith)
  | inr (p, e) ↦ elim (Option-cases (stringitem_get t type)) [
    | inl e' ↦ absurd (ground arith)
    | inr (n, e') ↦ record {
      path_ref = p;
      type_ref = n;
      has_path = e;
      has_type = e';
      has_item = ground arith;
    }
  ]
]

pub Finds-klass_get :
    (t : Table) (path type : List ℕ) (i : ℕ)
    → FindsKlass t path type i
    → klass_get t path type ≡ some i
unfolding klass_get
Finds-klass_get t path type i f = rw (klass_get, f.has_path, f.has_type) f.has_item

-- Where the type that an array or a variable argument is made of was found.
pub array-found :
    (t : Table) (dims : ℕ) (elem : TypeDesc) (i : ℕ)
    → IsReady t
    → typeitem_get t (TypeDesc.array dims elem) ≡ some (some i)
    → (k : ℕ) × (typeitem_get t elem ≡ some (some k))
      × (find_type t (TypeItem.array dims (some k)) ≡ some i)
unfolding typeitem_get
array-found t dims elem i v h = elim (Option-cases (typeitem_get t elem)) [
  | inl e ↦ absurd (ground arith)
  | inr (none, e) ↦
      let found : find_type t (TypeItem.array dims none) ≡ some i = ground arith in
      absurd (v.refers item_type i _ (get-index entry_equal_iff t item_type _ i v.valid found))
  | inr (some k, e) ↦ (k, e, ground arith)
]

pub varg-found :
    (t : Table) (elem : TypeDesc) (i : ℕ)
    → IsReady t
    → typeitem_get t (TypeDesc.varg elem) ≡ some (some i)
    → (k : ℕ) × (typeitem_get t elem ≡ some (some k))
      × (find_type t (TypeItem.varg (some k)) ≡ some i)
unfolding typeitem_get
varg-found t elem i v h = elim (Option-cases (typeitem_get t elem)) [
  | inl e ↦ absurd (ground arith)
  | inr (none, e) ↦
      let found : find_type t (TypeItem.varg none) ≡ some i = ground arith in
      absurd (v.refers item_type i _ (get-index entry_equal_iff t item_type _ i v.valid found))
  | inr (some k, e) ↦ (k, e, ground arith)
]

module _ (t t' : Table) (g : Grows t t') where
  pub path_get-Grows :
      (path : List ℕ) (p : Ref) → path_get t path ≡ some p → path_get t' path ≡ some p
  unfolding path_get
  path_get-Grows [] p h = h
  path_get-Grows (c ∷ path) p h = elim (Option-cases (stringitem_get t (c ∷ path))) [
    | inl e ↦ absurd (ground arith)
    | inr (i, e) ↦ let e' = g.finds item_string i (Item.string (c ∷ path)) e in ground arith
  ]

  pub path_get-back :
      (path : List ℕ) (p : Ref)
      → path_get t' path ≡ some p
      → BelowOrNull (size t item_string) p
      → path_get t path ≡ some p
  unfolding path_get
  path_get-back [] p h below = h
  path_get-back (c ∷ path) p h below = elim (Option-cases (stringitem_get t' (c ∷ path))) [
    | inl e ↦ absurd (ground arith)
    | inr (i, e) ↦
        let at : some i ≡ p = ground arith in
        let lt : i < size t item_string =
          subst (λ (r : Ref). BelowOrNull (size t item_string) r) (sym at) below in
        let e' = g.back item_string i (Item.string (c ∷ path)) e lt in
        rw (path_get, e') (ap (λ (r : Ref). some r) at)
  ]

  -- A type that was found is found in what the table grows to.
  pub typeitem_get-Grows :
      (desc : TypeDesc) (i : ℕ)
      → IsSimple desc
      → IsReady t
      → typeitem_get t desc ≡ some (some i)
      → typeitem_get t' desc ≡ some (some i)
  unfolding typeitem_get
  typeitem_get-Grows (TypeDesc.base b) i s v h =
      let found : find_type t (TypeItem.primitive (base_kind b)) ≡ some i = ground arith in
      ap (λ (r : Ref). some r) (g.finds item_type i _ found)
  typeitem_get-Grows (TypeDesc.klass path type) i s v h =
      let f = klass_get-Finds t path type i (ground arith) in
      ap (λ (r : Ref). some r)
        (Finds-klass_get t' path type i (record {
          path_ref = f.path_ref;
          type_ref = f.type_ref;
          has_path = path_get-Grows path f.path_ref f.has_path;
          has_type = g.finds item_string f.type_ref _ f.has_type;
          has_item = g.finds item_type i _ f.has_item;
        }))
  typeitem_get-Grows (TypeDesc.proto args rets) i s v h = absurd s
  typeitem_get-Grows (TypeDesc.array dims elem) i s v h =
      let (k, e, found) = array-found t dims elem i v h in
      rw (typeitem_get-Grows elem k s v e) (ap (λ (r : Ref). some r) (g.finds item_type i _ found))
  typeitem_get-Grows (TypeDesc.map key val) i s v h = absurd s
  typeitem_get-Grows (TypeDesc.set elem) i s v h = absurd s
  typeitem_get-Grows (TypeDesc.varg elem) i s v h =
      let (k, e, found) = varg-found t elem i v h in
      rw (typeitem_get-Grows elem k s v e) (ap (λ (r : Ref). some r) (g.finds item_type i _ found))

  -- A type that is found after the growth at an index that was taken before it was found before it.
  pub typeitem_get-back :
      (desc : TypeDesc) (i : ℕ)
      → IsSimple desc
      → IsReady t
      → IsReady t'
      → typeitem_get t' desc ≡ some (some i)
      → i < size t item_type
      → typeitem_get t desc ≡ some (some i)
  unfolding typeitem_get
  typeitem_get-back (TypeDesc.base b) i s v v' h lt =
      let found : find_type t' (TypeItem.primitive (base_kind b)) ≡ some i = ground arith in
      ap (λ (r : Ref). some r) (g.back item_type i _ found lt)
  typeitem_get-back (TypeDesc.klass path type) i s v v' h lt =
      let f = klass_get-Finds t' path type i (ground arith) in
      let found = g.back item_type i _ f.has_item lt in
      let below =
        v.refers item_type i _ (get-index entry_equal_iff t item_type _ i v.valid found) in
      ap (λ (r : Ref). some r)
        (Finds-klass_get t path type i (record {
          path_ref = f.path_ref;
          type_ref = f.type_ref;
          has_path = path_get-back path f.path_ref f.has_path below.0;
          has_type = g.back item_string f.type_ref _ f.has_type below.1;
          has_item = found;
        }))
  typeitem_get-back (TypeDesc.proto args rets) i s v v' h lt = absurd s
  typeitem_get-back (TypeDesc.array dims elem) i s v v' h lt =
      let (k, e, found') = array-found t' dims elem i v' h in
      let found = g.back item_type i _ found' lt in
      let below : k < i =
        v.refers item_type i _ (get-index entry_equal_iff t item_type _ i v.valid found) in
      rw (typeitem_get-back elem k s v v' e (omega arith)) (ap (λ (r : Ref). some r) found)
  typeitem_get-back (TypeDesc.map key val) i s v v' h lt = absurd s
  typeitem_get-back (TypeDesc.set elem) i s v v' h lt = absurd s
  typeitem_get-back (TypeDesc.varg elem) i s v v' h lt =
      let (k, e, found') = varg-found t' elem i v' h in
      let found = g.back item_type i _ found' lt in
      let below : k < i =
        v.refers item_type i _ (get-index entry_equal_iff t item_type _ i v.valid found) in
      rw (typeitem_get-back elem k s v v' e (omega arith)) (ap (λ (r : Ref). some r) found)
