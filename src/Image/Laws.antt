-- ===== src/Image/Laws.antt =====
-- The types of an image: a descriptor that is stored reads back, once and for all at one index.
use koala_lang_pre.Prelude.{
  Option-cases, ℕ, ◌≡◌, refl, inl, inr, Bool, true, false, none, some, arith,
}
use koala_lang_pre.TypeDesc.{TypeDesc, TypeList}
use koala_lang_pre.HashTable.{Heap}
use koala_lang_pre.AtomTable.{AtomEntry, index}
use koala_lang_pre.AtomTable.Append.{new-IsValid}
use koala_lang_pre.Image.Items.{TypeItem, Item}
use koala_lang_pre.Image.Key.{entry_key, entry_equal_iff}
use koala_lang_pre.Image.{
  Table, item_max, image_new, list_get, find_type, typeitem_get, typeitems_get, typeitem_set,
  protoitem_get,
}
use koala_lang_pre.Image.Ready.{IsReady}
use koala_lang_pre.Image.Types.{IsSimple}
use koala_lang_pre.Image.Sets.{typeitem_set-SetsType}

-- With memory granted, `KImage_New` gives a ready table in which nothing is found.
pub image_new-IsReady :
    (malloc : ℕ → Bool) (heap : Heap (AtomEntry Item)) (next : ℕ)
    → ((k : ℕ) → malloc k ≡ true)
    → ((a : ℕ) → (heap a).hashed ≡ false)
    → (t : Table) × (image_new malloc heap next ≡ some t)
      × IsReady t
      × ((type : ℕ) (d : Item) → index t type d ≡ none)
unfolding image_new
image_new-IsReady malloc heap next g clean =
    let (t, e, v, wide, nothing, empty) =
      new-IsValid entry_equal_iff malloc heap next item_max g clean in
    (
      t,
      e,
      record {
        valid = v;
        wide = wide;
        refers = λ type i d h. absurd (ground (arith, empty type i));
        entered = λ type i d lo hi h. absurd (ground (arith, empty type i));
      },
      nothing,
    )

typeitem_set-found :
    (malloc : ℕ → Bool) (t : Table) (desc : TypeDesc) (i : ℕ)
    → IsSimple desc
    → typeitem_get t desc ≡ some (some i)
    → typeitem_set malloc desc t ≡ some (t, i)
unfolding typeitem_set
typeitem_set-found malloc t (TypeDesc.base b) i s h = rw h refl
typeitem_set-found malloc t (TypeDesc.klass path type) i s h = rw h refl
typeitem_set-found malloc t (TypeDesc.proto args rets) i s h = absurd s
typeitem_set-found malloc t (TypeDesc.array dims elem) i s h = rw h refl
typeitem_set-found malloc t (TypeDesc.map key val) i s h = absurd s
typeitem_set-found malloc t (TypeDesc.set elem) i s h = absurd s
typeitem_set-found malloc t (TypeDesc.varg elem) i s h = rw h refl

-- On a ready image, a simple descriptor (no function type, map or set) is stored once: a second
-- `TypeItem_Set` returns the index of the first and leaves the image alone.
pub typeitem_set_again :
    (malloc : ℕ → Bool) (t : Table) (desc : TypeDesc)
    → IsSimple desc
    → IsReady t
    → (t' : Table) × (i : ℕ) × (typeitem_set malloc desc t ≡ some (t', i))
      × (typeitem_set malloc desc t' ≡ some (t', i))
typeitem_set_again malloc t desc s v =
    let (t', i, e, x) = typeitem_set-SetsType malloc desc t s v in
    (t', i, e, typeitem_set-found malloc t' desc i s x.found)

-- `TypeItem_Set` confuses function types: where a type that the function returns is not in the image yet,
-- and the function type with the same arguments and no results is, it returns the index of the latter and
-- stores nothing.
pub typeitem_set-confused :
    (malloc : ℕ → Bool) (t : Table) (args rets : TypeList) (i : ℕ)
    → typeitems_get t rets ≡ some none
    → typeitem_get t (TypeDesc.proto args TypeList.nil) ≡ some (some i)
    → typeitem_set malloc (TypeDesc.proto args rets) t ≡ some (t, i)
unfolding typeitem_set typeitem_get typeitems_get
typeitem_set-confused malloc t args rets i missing stands =
    elim (Option-cases (typeitems_get t args)) [
      | inl e ↦ absurd (ground arith)
      | inr (ps, e) ↦
          let found : find_type t (TypeItem.proto (protoitem_get t none (list_get t ps))) ≡ some i =
            ground arith in
          rw (missing, e, found) refl
    ]
