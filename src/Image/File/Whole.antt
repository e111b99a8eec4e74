-- ===== src/Image/File/Whole.antt =====
-- An image that is read whole has the items of the image that was written.
use native.Mathlib.Nat.{zero-div}
use koala_lang_pre.Prelude.{
  leb, ◌==◌, Bool-cases, length, get_elem?, get_or-past, ℕ, ◌^◌, ◌≤◌, ◌<◌, ◌≡◌, refl, sym, ap, ◌∙◌,
  subst, inl, inr, Bool, true, false, List, [], ◌∷◌, arith,
}
use koala_lang_pre.HashTable.{Heap}
use koala_lang_pre.AtomTable.{AtomEntry, get, size, push, vector}
use koala_lang_pre.Image.{Table, item_max}
use koala_lang_pre.Image.Items.{Item}
use koala_lang_pre.Image.Ready.{IsReady, Refers-mono}
use koala_lang_pre.Image.Appends.{push-IsReady}
use koala_lang_pre.Image.File.{item_map, KImage, finish, write_file}
use koala_lang_pre.Image.File.Input.{MapItem, append_maps, load, Loaded, read_file}
use koala_lang_pre.Image.File.Layout.{append_maps-Agree}
use koala_lang_pre.Image.File.Load.{IsStored}
use koala_lang_pre.Image.File.Sections.{kept, ItemsFit}
use koala_lang_pre.Image.File.HeaderBytes.{HeaderFits}
use koala_lang_pre.Image.File.Written.{finish-table, maps}
use koala_lang_pre.Image.File.RoundTrip.{ReadsBack, read_file-write_file}

append_maps-IsReady : (ms : List MapItem) (t : Table) → IsReady t → IsReady (append_maps ms t)
unfolding append_maps
append_maps-IsReady [] t v = v
append_maps-IsReady ((k, o, s) ∷ ms) t v =
    append_maps-IsReady ms (push t item_map (Item.map k o s))
      (push-IsReady t item_map (Item.map k o s) v (omega arith) tt (inl refl))

-- `KImage_Finish` keeps a table ready.
pub finish-IsReady :
    (image : KImage)
    → IsReady image.table
    → size image.table item_map ≡ 0
    → HeaderFits image.header
    → IsReady (finish image).table
finish-IsReady image v fresh h =
    subst IsReady (sym (finish-table image v.wide fresh h))
      (append_maps-IsReady (maps image v.wide fresh h) image.table v)

load-nothing_left_out : (type : ℕ) → load 0 type ≡ true
unfolding load
load-nothing_left_out type = ground (arith, zero-div (2 ^ type))

kept-whole : (t : Table) (type : ℕ) → kept t 0 type ≡ vector t type
unfolding kept
kept-whole t type = rw (load-nothing_left_out type) refl

vector-past :
    (t : Table) (type : ℕ) → length t.items ≡ item_max → item_max ≤ type → vector t type ≡ []
unfolding vector
vector-past t type wide h = get_or-past [] t.items type (omega arith)

ReadsBack-vector :
    (image : KImage) (u : Table)
    → IsReady image.table
    → size image.table item_map ≡ 0
    → HeaderFits image.header
    → ReadsBack image 0 u
    → (type : ℕ) → vector u type ≡ vector (finish image).table type
ReadsBack-vector image u v fresh h s type =
    let t = (finish image).table in
    elim (Bool-cases (type == 0)) [
      | inl first ↦
          let at : item_map ≡ type = ground arith in
          subst (λ (k : ℕ). vector u k ≡ vector t k) at s.maps
      | inr other ↦ elim (Bool-cases (leb item_max type)) [
        | inl past ↦
            vector-past u type s.stored.wide (ground arith)
            ∙ sym (vector-past t type (finish-IsReady image v fresh h).wide (ground arith))
        | inr within ↦
            s.items type (ground arith) (ground arith)
            ∙ kept-whole image.table type
            ∙ sym (
                ap (λ (t : Table). vector t type) (finish-table image v.wide fresh h)
                ∙ append_maps-Agree (maps image v.wide fresh h) image.table v.wide type
                    (ground arith))
      ]
    ]

-- A table that is stored and has the vectors of a ready one is ready.
stored-IsReady :
    (t u : Table)
    → IsReady t
    → IsStored u
    → ((type : ℕ) → vector u type ≡ vector t type)
    → IsReady u
unfolding get size
stored-IsReady t u v s same = record {
  valid = s.valid;
  wide = s.wide;
  entered = s.entered;
  refers = λ type i d h.
      Refers-mono (size t) (size u) i d (λ n. omega (arith, ap length (same n)))
        (v.refers type i d (ap (λ (ds : List Item). get_elem? ds i) (sym (same type)) ∙ h));
}

module _ (malloc : ℕ → Bool) (heap : Heap (AtomEntry Item)) (next : ℕ)
    (grants : (k : ℕ) → malloc k ≡ true) (clean : (a : ℕ) → (heap a).hashed ≡ false) where
  -- A ready image without map items, whose header and items fit the format, that is finished and written to a
  -- file below 2 GB and then read whole, in fresh memory that is granted, gives the header and a ready table with the items of
  -- the finished image at their indices.
  pub read_file-whole :
      (image : KImage)
      → IsReady image.table
      → size image.table item_map ≡ 0
      → HeaderFits image.header
      → ItemsFit image.table
      → length (write_file (finish image)) < 2 ^ 31
      → (u : Table) × (read_file malloc heap next 0 (write_file (finish image))
          ≡ Loaded.image (record { header = (finish image).header; table = u }))
        × IsReady u
        × ((type i : ℕ) → get u type i ≡ get (finish image).table type i)
  unfolding get
  read_file-whole image v fresh h fit small =
      let (u, e, s) =
        read_file-write_file malloc heap next 0 grants clean image v fresh h fit small in
      let same = ReadsBack-vector image u v fresh h s in
      (
        u,
        e,
        stored-IsReady (finish image).table u (finish-IsReady image v fresh h) s.stored same,
        λ type i. ap (λ (ds : List Item). get_elem? ds i) (same type),
      )
