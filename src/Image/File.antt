-- ===== src/Image/File.antt =====
-- src/image.c, include/image.h: the image of a module, its layout in a file, the file written and read.
-- A file is the list of its bytes. A number of the header or of a map item is the word that it is stored
-- in, not negative. The memory that `KImage_Read_File` builds an image in is free from `next` on; an array
-- of map items that is too large for the stack is left out, and so is the CRC, which is always nought.
pub mod Input
pub mod Layout
pub mod Maps
pub mod Load
pub mod Sections
pub mod HeaderBytes
pub mod Written
pub mod RoundTrip
pub mod Whole
mod Tests
pub mod Refuses
use koala_lang_pre.Prelude.{
  ◌==◌, if◌then◌else◌, length, take, replicate, ℕ, ◌+◌, ◌-◌, Bool, Option, none, some, List, [],
  ◌∷◌, ◌++◌, map,
}
use koala_lang_pre.HashTable.{Heap}
use koala_lang_pre.AtomTable.{AtomEntry, vector, size, push, append}
use koala_lang_pre.Image.{Table, ◌>>=◌, image_new, item_max, item_const}
use koala_lang_pre.Image.Items.{Item}
use koala_lang_pre.Image.Key.{entry_key}
use koala_lang_pre.Image.Format.{words_bytes, item_bytes, item_length, read_words, read_item}

-- `ITEM_MAP`
abbrev pub item_map : ℕ
item_map = 0

-- The types that the loops of `KImage_Finish` go through.
abbrev pub item_types : List ℕ
item_types = 1 ∷ 2 ∷ 3 ∷ 4 ∷ 5 ∷ 6 ∷ 7 ∷ 8 ∷ 9 ∷ 10 ∷ 11 ∷ 12 ∷ 13 ∷ 14 ∷ 15 ∷ []

-- `ImageHeader`
pub record Header : Type 0 where
  pub magic : List ℕ
  pub version : List ℕ
  pub file_size : ℕ
  pub header_size : ℕ
  pub endian_tag : ℕ
  pub map_offset : ℕ
  pub map_size : ℕ
  pub crc32 : ℕ
  pub pkgname : List ℕ

-- `KImage`
pub record KImage : Type 0 where
  pub header : Header
  pub table : Table

-- `strncpy` of a name to the 64 bytes of `pkgname`, which are nought.
abbrev pub pkg_name : Option (List ℕ) → List ℕ
pkg_name none = replicate 64 0
pkg_name (some name) = take 63 name ++ replicate (64 - length (take 63 name)) 0

-- `init_header`
unfoldable pub init_header : Option (List ℕ) → Header
init_header name = record {
  magic = 75 ∷ 76 ∷ 67 ∷ 0 ∷ [];
  version = 48 ∷ 49 ∷ 48 ∷ 49 ∷ [];
  file_size = 0;
  header_size = 96;
  endian_tag = 0x1a2b3c4d;
  map_offset = 96;
  map_size = item_max;
  crc32 = 0;
  pkgname = pkg_name name;
}

-- `KImage_New`
unfoldable pub kimage_new : (ℕ → Bool) → Heap (AtomEntry Item) → ℕ → Option (List ℕ) → Option KImage
unfolding init_header
kimage_new malloc heap next name = do
  t ← image_new malloc heap next
  some (record { header = init_header name; table = t })

-- The first loop of `KImage_Finish`: where the items begin.
unfoldable pub items_offset : Table → List ℕ → ℕ → ℕ
items_offset t [] offset = offset
items_offset t (type ∷ types) offset =
    items_offset t types (if size t type == 0 then offset else offset + 12)

unfoldable pub lengths : List Item → ℕ
lengths [] = 0
lengths (d ∷ ds) = item_length d + lengths ds

-- The body of the second loop: the table, `offset` and `length`.
abbrev pub lay_out_type : ℕ → Table × ℕ × ℕ → Table × ℕ × ℕ
lay_out_type type (t, offset, length) = if size t type == 0 then (t, offset, length) else (
  push t item_map (Item.map type (offset + length) (size t type)),
  offset + length,
  lengths (vector t type),
)

unfoldable pub lay_out : List ℕ → Table × ℕ × ℕ → Table × ℕ × ℕ
lay_out [] s = s
lay_out (type ∷ types) s = lay_out types (lay_out_type type s)

-- `KImage_Finish`
unfoldable pub finish : KImage → KImage
unfolding lay_out lengths items_offset
finish image =
    let start = items_offset image.table item_types image.header.header_size in
    let (t, offset, length) = lay_out item_types (image.table, start, 0) in
    record {
      header = record image.header { file_size = offset + length; map_size = size t item_map };
      table = t;
    }

unfoldable pub header_bytes : Header → List ℕ
header_bytes h =
    h.magic
    ++ h.version
    ++ words_bytes
        (h.file_size ∷ h.header_size ∷ h.endian_tag ∷ h.map_offset ∷ h.map_size ∷ h.crc32 ∷ [])
    ++ h.pkgname

-- `__image_write_item`
unfoldable pub items_bytes : List Item → List ℕ
items_bytes [] = []
items_bytes (d ∷ ds) = item_bytes d ++ items_bytes ds

-- `__image_write_items`
unfoldable pub image_bytes : Table → List ℕ → List ℕ
image_bytes t [] = []
image_bytes t (type ∷ types) =
    (if size t type == 0 then [] else items_bytes (vector t type)) ++ image_bytes t types

-- What `KImage_Write_File` writes; the header's own size is at most that of the struct.
unfoldable pub write_file : KImage → List ℕ
unfolding header_bytes items_bytes image_bytes
write_file image =
    take image.header.header_size (header_bytes image.header)
    ++ image_bytes image.table (item_map ∷ item_types)
