-- ===== src/Image/Parts.antt =====
-- `TypeItem_Get` in terms of what it comes to for the parts of a type.
use koala_lang_pre.Prelude.{ℕ, ◌<◌, ◌≡◌, refl, sym, ◌∙◌, none, some, List, arith}
use koala_lang_pre.TypeDesc.{Base, TypeDesc, base_kind}
use koala_lang_pre.AtomTable.{size, index}
use koala_lang_pre.AtomTable.Laws.{get-index, get-lt}
use koala_lang_pre.Image.Items.{Ref, TypeItem, Item}
use koala_lang_pre.Image.Key.{entry_key, entry_equal_iff}
use koala_lang_pre.Image.{
  Table, item_type, stringitem_get, path_get, find_type, klass_get, typeitem_get,
}
use koala_lang_pre.Image.Ready.{IsReady}
use koala_lang_pre.Image.Types.{IsSimple, klass_get-Finds, array-found, varg-found}

pub typeitem_get_total :
    (t : Table) (desc : TypeDesc) → IsSimple desc → (r : Ref) × (typeitem_get t desc ≡ some r)
unfolding typeitem_get
typeitem_get_total t (TypeDesc.base b) s = (_, refl)
typeitem_get_total t (TypeDesc.klass path type) s = (_, refl)
typeitem_get_total t (TypeDesc.proto args rets) s = absurd s
typeitem_get_total t (TypeDesc.array dims elem) s =
    let (r, e) = typeitem_get_total t elem s in (find_type t (TypeItem.array dims r), rw e refl)
typeitem_get_total t (TypeDesc.map key val) s = absurd s
typeitem_get_total t (TypeDesc.set elem) s = absurd s
typeitem_get_total t (TypeDesc.varg elem) s =
    let (r, e) = typeitem_get_total t elem s in (find_type t (TypeItem.varg r), rw e refl)

-- What `TypeItem_Get` comes to when the parts of a type are found.
module _ (t : Table) where
  pub base-found :
      (b : Base)
      → typeitem_get t (TypeDesc.base b) ≡ some (find_type t (TypeItem.primitive (base_kind b)))
  unfolding typeitem_get
  base-found b = refl

  pub base-missed :
      (b : Base)
      → typeitem_get t (TypeDesc.base b) ≡ some none
      → find_type t (TypeItem.primitive (base_kind b)) ≡ none
  unfolding typeitem_get
  base-missed b h = ground arith

  pub klass-none :
      (path type : List ℕ)
      → typeitem_get t (TypeDesc.klass path type) ≡ some none
      → klass_get t path type ≡ none
  unfolding typeitem_get
  klass-none path type h = ground arith

  pub klass-found :
      (path type : List ℕ) (p : Ref) (n : ℕ)
      → path_get t path ≡ some p
      → stringitem_get t type ≡ some n
      → typeitem_get t (TypeDesc.klass path type) ≡ some (find_type t (TypeItem.klass p (some n)))
  unfolding typeitem_get klass_get
  klass-found path type p n hp hn = rw (klass_get, hp, hn) refl

  pub array-get :
      (dims : ℕ) (elem : TypeDesc) (k : ℕ)
      → typeitem_get t elem ≡ some (some k)
      → typeitem_get t (TypeDesc.array dims elem)
        ≡ some (find_type t (TypeItem.array dims (some k)))
  unfolding typeitem_get
  array-get dims elem k h = rw h refl

  pub array-none :
      (dims : ℕ) (elem : TypeDesc) (k : ℕ)
      → typeitem_get t elem ≡ some (some k)
      → typeitem_get t (TypeDesc.array dims elem) ≡ some none
      → find_type t (TypeItem.array dims (some k)) ≡ none
  array-none dims elem k h missed = let e = sym (array-get dims elem k h) ∙ missed in ground arith

  pub varg-get :
      (elem : TypeDesc) (k : ℕ)
      → typeitem_get t elem ≡ some (some k)
      → typeitem_get t (TypeDesc.varg elem) ≡ some (find_type t (TypeItem.varg (some k)))
  unfolding typeitem_get
  varg-get elem k h = rw h refl

  pub varg-none :
      (elem : TypeDesc) (k : ℕ)
      → typeitem_get t elem ≡ some (some k)
      → typeitem_get t (TypeDesc.varg elem) ≡ some none
      → find_type t (TypeItem.varg (some k)) ≡ none
  varg-none elem k h missed = let e = sym (varg-get elem k h) ∙ missed in ground arith

-- An index is below the size of its vector.
pub index-lt :
    (t : Table) (type i : ℕ) (d : Item) → IsReady t → index t type d ≡ some i → i < size t type
index-lt t type i d v h = get-lt t type i (get-index entry_equal_iff t type d i v.valid h)

-- What was found is an item of the table.
pub typeitem_get-lt :
    (t : Table) (desc : TypeDesc) (i : ℕ)
    → IsReady t
    → IsSimple desc
    → typeitem_get t desc ≡ some (some i)
    → i < size t item_type
unfolding typeitem_get
typeitem_get-lt t (TypeDesc.base b) i v s h =
    index-lt t item_type i (Item.type (TypeItem.primitive (base_kind b))) v (ground arith)
typeitem_get-lt t (TypeDesc.klass path type) i v s h =
    index-lt t item_type i _ v (klass_get-Finds t path type i (ground arith)).has_item
typeitem_get-lt t (TypeDesc.proto args rets) i v s h = absurd s
typeitem_get-lt t (TypeDesc.array dims elem) i v s h =
    index-lt t item_type i _ v (array-found t dims elem i v h).2
typeitem_get-lt t (TypeDesc.map key val) i v s h = absurd s
typeitem_get-lt t (TypeDesc.set elem) i v s h = absurd s
typeitem_get-lt t (TypeDesc.varg elem) i v s h =
    index-lt t item_type i _ v (varg-found t elem i v h).2
