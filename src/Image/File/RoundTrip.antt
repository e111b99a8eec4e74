-- ===== src/Image/File/RoundTrip.antt =====
-- An image that is finished and written is what `KImage_Read_File` reads.
use koala_lang_pre.Prelude.{
  length, get_elem?, drop, length-append, ℕ, zero, ◌^◌, ◌<◌, ◌≡◌, refl, sym, ap, ap₂, ◌∙◌, inl,
  Bool, true, false, none, some, List, [], ◌∷◌, ◌++◌, map, append_assoc, arith,
}
use koala_lang_pre.HashTable.{Heap}
use koala_lang_pre.AtomTable.{AtomEntry, get, size, push, vector}
use koala_lang_pre.AtomTable.Laws.{push-IsValid}
use koala_lang_pre.AtomTable.Append.{new-IsValid}
use koala_lang_pre.Image.{Table, image_new, item_max}
use koala_lang_pre.Image.Items.{Item}
use koala_lang_pre.Image.Key.{entry_key, entry_equal_iff}
use koala_lang_pre.Image.Ready.{IsReady}
use koala_lang_pre.Image.Appends.{length-push, pushed-IsEntered}
use koala_lang_pre.Image.File.{
  item_map, item_types, Header, KImage, kimage_new, items_bytes, header_bytes, finish, write_file,
}
use koala_lang_pre.Image.File.Input.{
  MapItem, append_maps, read_maps, load_types, Loaded, read_image, read_file, read_header,
  header_check, load_image,
}
use koala_lang_pre.Image.File.Layout.{maps_at, append_maps-Agree}
use koala_lang_pre.Image.File.Maps.{
  map_item, vector-append_maps, read_maps-items_bytes, maps_at-MapsFit,
}
use koala_lang_pre.Image.File.Load.{IsStored}
use koala_lang_pre.Image.File.Sections.{kept, ItemsFit, load_types-LoadsAll}
use koala_lang_pre.Image.File.HeaderBytes.{
  HeaderFits, read_header-header_bytes, header_check-magic, drop-prefix, length-header_bytes,
}
use koala_lang_pre.Image.File.Written.{
  start, maps, body, finish-HeaderFits, finish-map_size, write-finish, length-write,
  finish-file_size, all_types, vector-finish, start-maps,
}

append_maps-IsStored : (ms : List MapItem) (t : Table) → IsStored t → IsStored (append_maps ms t)
unfolding append_maps
append_maps-IsStored [] t v = v
append_maps-IsStored ((k, o, s) ∷ ms) t v =
    let d : Item = Item.map k o s in
    let h : item_map < length t.items = omega (arith, v.wide) in
    append_maps-IsStored ms (push t item_map d) (record {
      valid = push-IsValid entry_equal_iff t item_map d h v.valid;
      wide = length-push t item_map d ∙ v.wide;
      entered = pushed-IsEntered t item_map d h (inl refl) v.entered;
    })

nothing_there : (ds : List Item) → ((i : ℕ) → get_elem? ds i ≡ none) → ds ≡ []
nothing_there [] h = refl
nothing_there (d ∷ ds) h = cc (h zero)

-- What the table `u` has of an image that was read with the mask `unload`.
pub record ReadsBack (image : KImage) (unload : ℕ) (u : Table) : Type 0 where
  pub stored : IsStored u
  pub items : (type : ℕ) → 0 < type → type < item_max → vector u type ≡ kept image.table unload type
  pub maps : vector u item_map ≡ vector (finish image).table item_map

module _ (malloc : ℕ → Bool) (heap : Heap (AtomEntry Item)) (next unload : ℕ)
    (grants : (k : ℕ) → malloc k ≡ true) (clean : (a : ℕ) → (heap a).hashed ≡ false) where
  new_image :
      (t : Table) × (image_new malloc heap next ≡ some t) × IsStored t × ((k : ℕ) → vector t k ≡ [])
  unfolding image_new get
  new_image =
      let (t, e, v, wide, missed, empty) =
        new-IsValid entry_equal_iff malloc heap next item_max grants clean in
      (
        t,
        e,
        record {
          valid = v;
          wide = wide;
          entered = λ type i d lo hi h. absurd (ground (arith, empty type i));
        },
        λ k. nothing_there (vector t k) (empty k),
      )

  -- The call step by step.
  read_file-steps :
      (bytes : List ℕ) (hd : Header) (ms : List MapItem) (new u : Table)
      → read_header bytes ≡ some hd
      → header_check hd ≡ true
      → image_new malloc heap next ≡ some new
      → read_maps hd.map_size (drop hd.map_offset bytes) ≡ some ms
      → load_types malloc unload bytes ms (append_maps ms new) ≡ some u
      → read_file malloc heap next unload bytes ≡ Loaded.image (record { header = hd; table = u })
  unfolding read_file read_image load_image kimage_new
  read_file-steps bytes hd ms new u a b c d e =
      rw (read_file, a, b, read_image, c, d, load_image, e) refl

  module _ (image : KImage) (v : IsReady image.table) (fresh : size image.table item_map ≡ 0)
      (h : HeaderFits image.header) (fit : ItemsFit image.table)
      (small : length (write_file (finish image)) < 2 ^ 31) where
    abbrev hd : Header
    hd = (finish image).header

    abbrev ms : List MapItem
    ms = maps image v.wide fresh h

    abbrev front : List ℕ
    front = header_bytes hd ++ items_bytes (map map_item ms)

    written : write_file (finish image) ≡ front ++ body image v.wide fresh h
    written =
        write-finish image v.wide fresh h
        ∙ sym (
            append_assoc (header_bytes hd) (items_bytes (map map_item ms))
              (body image v.wide fresh h))

    length-front : length front ≡ start image v.wide fresh h
    length-front = omega (
      arith,
      ap length written,
      length-write image v.wide fresh h,
      length-append front (body image v.wide fresh h),
    )

    maps_read : read_maps hd.map_size (drop hd.map_offset (write_file (finish image))) ≡ some ms
    maps_read =
        let f = finish-HeaderFits image v.wide fresh h in
        let more = items_bytes (map map_item ms) ++ body image v.wide fresh h in
        let at : drop hd.map_offset (write_file (finish image)) ≡ more =
          ap (drop hd.map_offset) (write-finish image v.wide fresh h)
          ∙ drop-prefix hd.map_offset (header_bytes hd) more
              (length-header_bytes hd f ∙ sym f.map_offset) in
        ap₂ read_maps (finish-map_size image v.wide fresh h) at
        ∙ read_maps-items_bytes ms (body image v.wide fresh h) (
            maps_at-MapsFit image.table item_types (start image v.wide fresh h) all_types
              (omega (arith, length-write image v.wide fresh h)))

    header_read : read_header (write_file (finish image)) ≡ some hd
    header_read =
        let f = finish-HeaderFits image v.wide fresh h in
        let more = items_bytes (map map_item ms) ++ body image v.wide fresh h in
        ap read_header (write-finish image v.wide fresh h)
        ∙ read_header-header_bytes hd f more (omega (arith, finish-file_size image v.wide fresh h))
            (omega (
              arith,
              finish-map_size image v.wide fresh h,
              start-maps image v.wide fresh h,
              length-write image v.wide fresh h,
            ))

    -- A ready image without map items, whose header and items fit the format, that is finished and written to
    -- a file below 2 GB is read back, in fresh memory that is granted, with any mask of types to leave out: the
    -- reader returns
    -- the header and, for each type, the items that the image has, or none for a type of the mask, and the
    -- same map items.
    pub read_file-write_file :
        (u : Table) × (read_file malloc heap next unload (write_file (finish image))
          ≡ Loaded.image (record { header = (finish image).header; table = u }))
        × ReadsBack image unload u
    read_file-write_file =
        let (new, e, stored, empty) = new_image in
        let f = finish-HeaderFits image v.wide fresh h in
        let (u, loads, s) =
          load_types-LoadsAll malloc unload image.table v fit 15 1 front (append_maps ms new)
            (omega arith) (omega arith) (append_maps-IsStored ms new stored)
            (λ k ge. append_maps-Agree ms new stored.wide k (omega arith) ∙ empty k) in
        (
          u,
          read_file-steps (write_file (finish image)) hd ms new u header_read
              (header_check-magic hd f) e maps_read
              (ap₂
                  (λ bytes p.
                    load_types malloc unload bytes (maps_at image.table item_types p)
                      (append_maps ms new))
                  written (sym length-front)
                ∙ loads),
          record {
            stored = s.stored;
            items = λ type lo hi. s.own type (omega arith) (omega arith);
            maps =
                s.others item_map (omega arith)
                ∙ vector-append_maps ms new stored.wide
                ∙ ap (λ (ds : List Item). ds ++ map map_item ms) (empty item_map)
                ∙ sym (vector-finish image v.wide fresh h);
          },
        )
