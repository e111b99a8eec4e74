-- ===== src/Image/File/Input.antt =====
-- src/image.c: `KImage_Read_File`.
-- The file is open. A size below nought, which no writer makes, is a large one here: it fails as a file
-- that is short.
use koala_lang_pre.Prelude.{
  ltb, leb, ◌==◌, if◌then◌else◌, length, get_or, take, drop, ℕ, zero, suc, ◌/◌, ◌%◌, ◌^◌, Bool,
  ◌&&◌, ◌||◌, Option, none, some, List, [], ◌∷◌,
}
use koala_lang_pre.HashTable.{Heap}
use koala_lang_pre.AtomTable.{AtomEntry, push, append}
use koala_lang_pre.Image.{Table, ◌>>=◌, item_max, item_const}
use koala_lang_pre.Image.Items.{Item}
use koala_lang_pre.Image.Key.{entry_key}
use koala_lang_pre.Image.Format.{read_words, read_item}
use koala_lang_pre.Image.File.{item_map, Header, KImage, kimage_new}

abbrev pub header_of : List ℕ → List ℕ → List ℕ → List ℕ → Option Header
header_of magic version (a ∷ b ∷ c ∷ d ∷ e ∷ f ∷ []) rest =
    if ltb (length rest) 64
    then none
    else some (record {
      magic = magic;
      version = version;
      file_size = a;
      header_size = b;
      endian_tag = c;
      map_offset = d;
      map_size = e;
      crc32 = f;
      pkgname = take 64 rest;
    })
header_of magic version ws rest = none

-- `fread` of the header.
unfoldable pub read_header : List ℕ → Option Header
read_header bytes = do
  (ws, rest) ← read_words 6 (drop 8 bytes)
  header_of (take 4 bytes) (take 4 (drop 4 bytes)) ws rest

-- `header_check`
unfoldable pub header_check : Header → Bool
header_check h = get_or h.magic 0 0 == 75 && get_or h.magic 1 0 == 76 && get_or h.magic 2 0 == 67

-- A map item: the type, the offset and the size.
abbrev pub MapItem : Type 0
MapItem = ℕ × ℕ × ℕ

abbrev as_map : List ℕ → Option MapItem
as_map (type ∷ offset ∷ size ∷ []) = some (type % 2 ^ 16, offset, size)
as_map ws = none

-- `fread` of the map items.
unfoldable pub read_maps : ℕ → List ℕ → Option (List MapItem)
read_maps zero bytes = some []
read_maps (suc n) bytes = do
  (ws, bytes) ← read_words 3 bytes
  item ← as_map ws
  maps ← read_maps n bytes
  some (item ∷ maps)

-- The first loop of `KImage_Read_File`.
unfoldable pub append_maps : List MapItem → Table → Table
append_maps [] t = t
append_maps ((type, offset, size) ∷ maps) t =
    append_maps maps (push t item_map (Item.map type offset size))

-- `LOAD`
unfoldable pub load : ℕ → ℕ → Bool
load unload type = unload / 2 ^ type % 2 == 0

-- The inner loop over the items of a type; the types up to `ITEM_CONST` are unique. `none` where an
-- assertion fails.
unfoldable pub load_items : (ℕ → Bool) → ℕ → ℕ → List ℕ → Table → Option Table
load_items malloc type zero bytes t = some t
load_items malloc type (suc n) bytes t = do
  (d, bytes) ← read_item type bytes
  (t, i) ← append malloc t type d (leb type item_const)
  load_items malloc type n bytes t

-- The body of the loop over the map items.
unfoldable pub load_type : (ℕ → Bool) → ℕ → List ℕ → MapItem → Table → Option Table
unfolding load load_items
load_type malloc unload bytes (type, offset, size) t =
    if type == 0 || leb item_max type
    then none
    else if load unload type
    then load_items malloc type size (drop offset bytes) t
    else some t

unfoldable pub load_types : (ℕ → Bool) → ℕ → List ℕ → List MapItem → Table → Option Table
unfolding load_type
load_types malloc unload bytes [] t = some t
load_types malloc unload bytes (item ∷ maps) t = do
  t ← load_type malloc unload bytes item t
  load_types malloc unload bytes maps t

-- What `KImage_Read_File` returns: NULL for a file that is not valid, or an image, unless an assertion fails.
pub data Loaded : Type 0 where
  invalid : Loaded
  failed : Loaded
  image : KImage → Loaded

module _ (malloc : ℕ → Bool) (heap : Heap (AtomEntry Item)) (next unload : ℕ) where
  -- The loops over the map items, which were read.
  unfoldable pub load_image : List ℕ → Header → Table → List MapItem → Loaded
  unfolding append_maps load_types
  load_image bytes h new maps = elim (load_types malloc unload bytes maps (append_maps maps new)) [
    | none ↦ failed
    | some t ↦ image (record { header = h; table = t })
  ]

  -- The part behind the check of the header.
  unfoldable pub read_image : List ℕ → Header → Loaded
  unfolding read_maps load_image
  read_image bytes h = elim (kimage_new malloc heap next none) [
    | none ↦ failed
    | some new ↦ elim (read_maps h.map_size (drop h.map_offset bytes)) [
      | none ↦ invalid
      | some maps ↦ load_image bytes h new.table maps
    ]
  ]

  -- `KImage_Read_File`
  unfoldable pub read_file : List ℕ → Loaded
  unfolding read_header header_check read_image
  read_file bytes = elim (read_header bytes) [
    | none ↦ invalid
    | some h ↦ if header_check h then read_image bytes h else invalid
  ]
