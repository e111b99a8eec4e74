-- ===== src/Image/Reads.antt =====
-- What `TypeItem_Get` finds reads back as the descriptor.
use koala_lang_pre.Prelude.{
  Option-cases, ℕ, zero, suc, ◌<◌, ◌≡◌, refl, inl, inr, none, some, List, [], ◌∷◌, arith,
}
use koala_lang_pre.TypeDesc.{
  Base, byte, char, int, float, bool, string, error, any, TypeDesc, base_kind, get_basic, find_kind,
}
use koala_lang_pre.AtomTable.{index}
use koala_lang_pre.AtomTable.Laws.{get-index}
use koala_lang_pre.Image.Items.{Ref, TypeItem, Item}
use koala_lang_pre.Image.Key.{entry_key, entry_equal_iff}
use koala_lang_pre.Image.{
  Table, item_string, item_type, stringitem_get, path_get, find_type, typeitem_get,
}
use koala_lang_pre.Image.Read.{
  get_item, get_string, get_type, get_path, base_desc, item_to_typedesc, to_typedesc,
}
use koala_lang_pre.Image.Ready.{IsReady}
use koala_lang_pre.Image.Types.{IsSimple, depth, klass_get-Finds, array-found, varg-found}

base_desc-kind : (b : Base) → base_desc (base_kind b) ≡ some (TypeDesc.base b)
unfolding base_desc get_basic find_kind
base_desc-kind byte = refl
base_desc-kind char = refl
base_desc-kind int = refl
base_desc-kind float = refl
base_desc-kind bool = refl
base_desc-kind string = refl
base_desc-kind error = refl
base_desc-kind any = refl

module _ (t : Table) (v : IsReady t) where
  pub get_item-index :
      (type i : ℕ) (d : Item) → index t type d ≡ some i → get_item t type (some i) ≡ some d
  unfolding get_item
  get_item-index type i d h = get-index entry_equal_iff t type d i v.valid h

  pub get_string-get :
      (s : List ℕ) (i : ℕ) → stringitem_get t s ≡ some i → get_string t (some i) ≡ some s
  get_string-get s i h = rw (get_item-index item_string i _ h) refl

  get_type-find :
      (item : TypeItem) (i : ℕ) → find_type t item ≡ some i → get_type t (some i) ≡ some item
  get_type-find item i h = rw (get_item-index item_type i _ h) refl

  get_path-get : (path : List ℕ) (p : Ref) → path_get t path ≡ some p → get_path t p ≡ some path
  unfolding path_get get_path
  get_path-get [] p h = let e : none ≡ p = ground arith in rw (← e) refl
  get_path-get (c ∷ path) p h = elim (Option-cases (stringitem_get t (c ∷ path))) [
    | inl e ↦ absurd (ground arith)
    | inr (i, e) ↦ let at : some i ≡ p = ground arith in rw (← at) (get_string-get (c ∷ path) i e)
  ]

  -- On a ready table, the index at which `TypeItem_Get` finds a simple descriptor reads
  -- back as that descriptor, with fuel above its depth.
  pub typeitem_get-read :
      (f : ℕ) (desc : TypeDesc) (i : ℕ)
      → IsSimple desc
      → depth desc < f
      → typeitem_get t desc ≡ some (some i)
      → to_typedesc f t (some i) ≡ some desc
  unfolding typeitem_get to_typedesc item_to_typedesc
  typeitem_get-read zero desc i s lt h = absurd (omega arith)
  typeitem_get-read (suc f) (TypeDesc.base b) i s lt h =
      rw (to_typedesc, get_type-find (TypeItem.primitive (base_kind b)) i (ground arith))
        (base_desc-kind b)
  typeitem_get-read (suc f) (TypeDesc.klass path type) i s lt h =
      let k = klass_get-Finds t path type i (ground arith) in
      rw
        (
          to_typedesc,
          get_type-find (TypeItem.klass k.path_ref (some k.type_ref)) i k.has_item,
          get_path-get path k.path_ref k.has_path,
          get_string-get type k.type_ref k.has_type,
        )
        refl
  typeitem_get-read (suc f) (TypeDesc.proto args rets) i s lt h = absurd s
  typeitem_get-read (suc f) (TypeDesc.array dims elem) i s lt h =
      let (k, e, found) = array-found t dims elem i v h in
      rw
        (
          to_typedesc,
          get_type-find (TypeItem.array dims (some k)) i found,
          typeitem_get-read f elem k s (omega arith) e,
        )
        refl
  typeitem_get-read (suc f) (TypeDesc.map key val) i s lt h = absurd s
  typeitem_get-read (suc f) (TypeDesc.set elem) i s lt h = absurd s
  typeitem_get-read (suc f) (TypeDesc.varg elem) i s lt h =
      let (k, e, found) = varg-found t elem i v h in
      rw
        (
          to_typedesc,
          get_type-find (TypeItem.varg (some k)) i found,
          typeitem_get-read f elem k s (omega arith) e,
        )
        refl
