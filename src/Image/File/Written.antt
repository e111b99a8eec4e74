-- ===== src/Image/File/Written.antt =====
-- `KImage_Write_File` after `KImage_Finish`: the header, the map items and the items, each where the header
-- and the map say.
use koala_lang_pre.Prelude.{
  ◌==◌, Bool-cases, length, take, length-append, take-append, length-map, eq_nil, ℕ, ◌+◌, ◌*◌, ◌≡◌,
  refl, sym, ap, ap₂, ◌∙◌, subst, inl, inr, List, [], ◌∷◌, ◌++◌, map, append-nil, arith,
}
use koala_lang_pre.AtomTable.{size, vector}
use koala_lang_pre.Image.{Table, item_max}
use koala_lang_pre.Image.Items.{Item}
use koala_lang_pre.Image.Format.{item_length}
use koala_lang_pre.Image.File.{
  item_map, item_types, KImage, items_bytes, image_bytes, header_bytes, lengths, items_offset,
  lay_out, finish, write_file,
}
use koala_lang_pre.Image.File.Input.{MapItem, append_maps}
use koala_lang_pre.Image.File.Layout.{
  maps_at, image_bytes-Agree, append_maps-Agree, length-items_bytes, lay_out-maps_at, AllTypes,
}
use koala_lang_pre.Image.File.Maps.{map_item, vector-append_maps, items_offset-maps_at}
use koala_lang_pre.Image.File.Sections.{types_from-AllTypes}
use koala_lang_pre.Image.File.HeaderBytes.{HeaderFits, length-header_bytes}

lengths-maps : (maps : List MapItem) → lengths (map map_item maps) ≡ 12 * length maps
unfolding lengths item_length
lengths-maps [] = refl
lengths-maps (m ∷ maps) = omega (arith, lengths-maps maps)

-- The guard on an empty vector writes what the loop would.
image_bytes-first :
    (t : Table) (type : ℕ) (types : List ℕ)
    → image_bytes t (type ∷ types) ≡ items_bytes (vector t type) ++ image_bytes t types
unfolding image_bytes size items_bytes
image_bytes-first t type types = elim (Bool-cases (size t type == 0)) [
  | inl e ↦
      let none_there : vector t type ≡ [] = eq_nil (vector t type) (ground arith) in
      rw none_there refl
  | inr e ↦ rw e refl
]

pub all_types : AllTypes item_types
all_types = types_from-AllTypes 15 1 (omega arith) (omega arith)

take-all : (xs : List ℕ) (n : ℕ) → length xs ≡ n → take n xs ≡ xs
take-all xs n e = ap (take n) (sym (append-nil xs)) ∙ take-append xs [] n (sym e)

-- An image whose table has no map items yet.
module _ (image : KImage) (wide : length image.table.items ≡ item_max)
    (fresh : size image.table item_map ≡ 0) (h : HeaderFits image.header) where
  abbrev pub start : ℕ
  start = items_offset image.table item_types image.header.header_size

  abbrev pub maps : List MapItem
  maps = maps_at image.table item_types start

  abbrev pub body : List ℕ
  body = image_bytes image.table item_types

  pub start-maps : start ≡ 96 + 12 * length maps
  start-maps =
      items_offset-maps_at image.table item_types image.header.header_size start
      ∙ ap (λ (n : ℕ). n + 12 * length maps) h.header_size

  laid_out :
      ((lay_out item_types (image.table, start, 0)).0 ≡ append_maps maps image.table)
      × ((lay_out item_types (image.table, start, 0)).1
            + (lay_out item_types (image.table, start, 0)).2
          ≡ start + length body)
  laid_out =
      subst
        (λ (p : ℕ).
          ((lay_out item_types (image.table, start, 0)).0
            ≡ append_maps (maps_at image.table item_types p) image.table)
          × ((lay_out item_types (image.table, start, 0)).1
                + (lay_out item_types (image.table, start, 0)).2
              ≡ p + length body))
        (omega arith) (lay_out-maps_at item_types image.table start 0 wide all_types)

  pub finish-table : (finish image).table ≡ append_maps maps image.table
  unfolding finish
  finish-table = laid_out.0

  finish-size : (finish image).header.file_size ≡ start + length body
  unfolding finish
  finish-size = laid_out.1

  pub finish-HeaderFits : HeaderFits (finish image).header
  unfolding finish
  finish-HeaderFits = record {
    magic = h.magic;
    version = h.version;
    header_size = h.header_size;
    map_offset = h.map_offset;
    endian_tag = h.endian_tag;
    crc32 = h.crc32;
    pkgname = h.pkgname;
  }

  pub vector-finish : vector (finish image).table item_map ≡ map map_item maps
  unfolding size
  vector-finish =
      ap (λ (t : Table). vector t item_map) finish-table
      ∙ vector-append_maps maps image.table wide
      ∙ ap (λ (ds : List Item). ds ++ map map_item maps)
          (eq_nil (vector image.table item_map) fresh)

  pub finish-map_size : (finish image).header.map_size ≡ length maps
  unfolding finish size
  finish-map_size = ap length vector-finish ∙ length-map map_item maps

  pub write-finish :
      write_file (finish image)
      ≡ header_bytes (finish image).header ++ (items_bytes (map map_item maps) ++ body)
  unfolding write_file
  write-finish =
      let t = (finish image).table in
      let hd = (finish image).header in
      let f = finish-HeaderFits in
      let same : image_bytes t item_types ≡ body =
        ap (λ (t : Table). image_bytes t item_types) finish-table
        ∙ image_bytes-Agree (append_maps maps image.table) image.table item_types
            (append_maps-Agree maps image.table wide) all_types in
      ap₂ (λ front back. front ++ back)
        (take-all (header_bytes hd) hd.header_size (length-header_bytes hd f ∙ sym f.header_size))
        (image_bytes-first t item_map item_types
          ∙ ap₂ (λ front back. front ++ back) (ap items_bytes vector-finish) same)

  pub length-write : length (write_file (finish image)) ≡ start + length body
  length-write =
      let items = items_bytes (map map_item maps) in
      omega (
        arith,
        ap length write-finish,
        length-append (header_bytes (finish image).header) (items ++ body),
        length-append items body,
        length-items_bytes (map map_item maps),
        lengths-maps maps,
        length-header_bytes (finish image).header finish-HeaderFits,
        start-maps,
      )

  -- For an image with a vector for each type, without map items and with the header that `init_header` gives or one like it,
  -- `KImage_Finish` enters in the header the size of the file that `KImage_Write_File` writes.
  pub finish-file_size : (finish image).header.file_size ≡ length (write_file (finish image))
  finish-file_size = finish-size ∙ sym length-write
