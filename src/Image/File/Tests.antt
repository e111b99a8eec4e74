-- ===== src/Image/File/Tests.antt =====
-- Image files on concrete images.
use koala_lang_pre.Prelude.{
  length, get_elem?, get_or, replicate, ℕ, zero, suc, ◌+◌, ◌<◌, ◌≡◌, refl, sym, subst, ◌≢◌, inr,
  Option, none, some, List, [], ◌∷◌, ◌++◌, arith,
}
use koala_lang_pre.TypeDesc.{TypeDesc}
use koala_lang_pre.AtomTable.{get, size}
use koala_lang_pre.Image.{Table, item_code}
use koala_lang_pre.Image.Items.{Item}
use koala_lang_pre.Image.Key.{entry_key}
use koala_lang_pre.Image.Ready.{IsReady}
use koala_lang_pre.Image.Module.{add_func, get_funcs}
use koala_lang_pre.Image.Module.Funcs.{get_funcs-add_func}
use koala_lang_pre.Image.Tests.{
  program, plenty, memory, empty, empty-IsReady, or_empty, ints, strings, main, no_funcs,
}
use koala_lang_pre.Image.Format.{
  word_bytes, words_bytes, item_words, item_bytes, item_length, read_word, read_words, read_bytes,
  c_string, as_type_item, as_const_item, as_item, item_size, read_item,
}
use koala_lang_pre.Image.Format.Fits.{Fits}
use koala_lang_pre.Image.File.{
  item_map, KImage, init_header, kimage_new, items_offset, lengths, lay_out, finish, header_bytes,
  items_bytes, image_bytes, write_file,
}
use koala_lang_pre.Image.File.Input.{
  Loaded, read_header, header_check, read_maps, append_maps, load, load_items, load_type,
  load_types, load_image, read_image, read_file,
}
use koala_lang_pre.Image.File.Load.{AllFitType, IsStored}
use koala_lang_pre.Image.File.Sections.{ItemsFit}
use koala_lang_pre.Image.File.HeaderBytes.{init_header-HeaderFits}
use koala_lang_pre.Image.File.Written.{finish-file_size}
use koala_lang_pre.Image.File.RoundTrip.{ReadsBack, read_file-write_file}
use koala_lang_pre.Image.File.Whole.{read_file-whole}
use koala_lang_pre.Image.File.Refuses.{read_file-refuses, load_items-empty_code}

files_program : Unit {0}
unfolding program word_bytes words_bytes item_words item_bytes item_length read_word read_words
    read_bytes c_string as_type_item as_const_item as_item item_size read_item init_header
    kimage_new items_offset lengths lay_out finish header_bytes items_bytes image_bytes write_file
    read_header header_check read_maps append_maps load load_items load_type load_types load_image
    read_image read_file
files_program = tt

-- The function main of an integer to a string.
abbrev with_main : Table
with_main = or_empty (add_func plenty empty main ints strings (1 ∷ 2 ∷ []))

abbrev program_image : KImage
program_image = record { header = init_header (some main); table = with_main }

with_main-IsReady : IsReady with_main
with_main-IsReady =
    let (t, e, v, reads) =
      get_funcs-add_func plenty 1 empty main ints strings (1 ∷ 2 ∷ []) [] (tt, tt) (tt, tt)
        (omega arith) (omega arith) empty-IsReady no_funcs in
    subst (λ o. IsReady (or_empty o)) (sym e) v

abbrev file : List ℕ
file = write_file (finish program_image)

length-file : length file ≡ 243
unfolding files_program
length-file = refl

abbrev funcs_of : Loaded → Option (List (List ℕ × TypeDesc × List ℕ))
funcs_of (Loaded.image k) = get_funcs 1 k.table
funcs_of _ = none

file_read :
    funcs_of (read_file plenty memory 100 0 file)
    ≡ some ((main, TypeDesc.proto ints strings, 1 ∷ 2 ∷ []) ∷ [])
unfolding files_program
file_read = refl

-- The items of a table, type by type.
abbrev SectionsFit : ℕ → List (List Item) → Type 0
SectionsFit type [] = Unit {0}
SectionsFit type (ds ∷ more) = AllFitType type ds × SectionsFit (type + 1) more

Fits-at :
    (type : ℕ) (ds : List Item) (i : ℕ) (d : Item)
    → AllFitType type ds
    → get_elem? ds i ≡ some d
    → Fits type d
Fits-at type [] i d fit h = cc
Fits-at type (x ∷ ds) zero d (fit, fits) h = subst (Fits type) (ground arith) fit
Fits-at type (x ∷ ds) (suc i) d (fit, fits) h = Fits-at type ds i d fits h

SectionsFit-at :
    (first : ℕ) (items : List (List Item)) (type i : ℕ) (d : Item)
    → SectionsFit first items
    → get_elem? (get_or items type []) i ≡ some d
    → Fits (first + type) d
SectionsFit-at first [] type i d fit h = cc
SectionsFit-at first (ds ∷ more) zero i d (fit, fits) h =
    subst (λ (n : ℕ). Fits n d) (omega arith) (Fits-at first ds i d fit h)
SectionsFit-at first (ds ∷ more) (suc type) i d (fit, fits) h =
    subst (λ (n : ℕ). Fits n d) (omega arith) (SectionsFit-at (first + 1) more type i d fits h)

empty-IsStored : IsStored empty
empty-IsStored =
    let v = empty-IsReady in record { valid = v.valid; wide = v.wide; entered = v.entered }

ne : (n : ℕ) → 0 < n → n ≢ 0
ne n lt e = absurd (omega (arith, e))

with_main-sections : SectionsFit 0 with_main.items
unfolding files_program
with_main-sections = (
  tt,
  (
    (
      (
        refl,
        (
          ne 109 (omega arith),
          (ne 97 (omega arith), (ne 105 (omega arith), (ne 110 (omega arith), tt))),
        ),
        omega arith,
      ),
      tt,
    ),
    (
      ((refl, omega arith), ((refl, omega arith), tt)),
      (
        (
          (refl, (omega arith, tt), omega arith, omega arith),
          ((refl, (omega arith, tt), omega arith, omega arith), tt),
        ),
        (
          ((refl, (omega arith, (omega arith, tt))), tt),
          (
            tt,
            (
              tt,
              (
                tt,
                (
                  ((refl, (omega arith, (omega arith, (omega arith, tt)))), tt),
                  (((refl, omega arith, omega arith), tt), (tt, (tt, (tt, (tt, (tt, (tt, tt))))))),
                ),
              ),
            ),
          ),
        ),
      ),
    ),
  ),
)

with_main-fit : ItemsFit with_main
unfolding files_program
with_main-fit type i d lo h =
    subst (λ (n : ℕ). Fits n d) (omega arith)
      (SectionsFit-at 0 with_main.items type i d with_main-sections h)

no_map : size with_main item_map ≡ 0
unfolding files_program
no_map = refl

read_file-write_file_example :
    (u : Table) × (read_file plenty memory 100 32 file
      ≡ Loaded.image (record { header = (finish program_image).header; table = u }))
    × ReadsBack program_image 32 u
read_file-write_file_example =
    read_file-write_file plenty memory 100 32 (λ k. refl) (λ a. refl) program_image
      with_main-IsReady no_map (init_header-HeaderFits (some main)) with_main-fit
      (omega (arith, length-file))

read_file-whole_example :
    (u : Table) × (read_file plenty memory 100 0 file
      ≡ Loaded.image (record { header = (finish program_image).header; table = u }))
    × IsReady u
    × ((type i : ℕ) → get u type i ≡ get (finish program_image).table type i)
read_file-whole_example =
    read_file-whole plenty memory 100 (λ k. refl) (λ a. refl) program_image with_main-IsReady no_map
      (init_header-HeaderFits (some main)) with_main-fit (omega (arith, length-file))

finish-file_size_example : (finish program_image).header.file_size ≡ length file
finish-file_size_example =
    finish-file_size program_image with_main-IsReady.wide no_map
      (init_header-HeaderFits (some main))

-- A file of Java's.
abbrev other_file : List ℕ
other_file = 0xca ∷ 0xfe ∷ 0xba ∷ 0xbe ∷ replicate 100 0

read_file-refuses_example : read_file plenty memory 100 0 other_file ≡ Loaded.invalid
read_file-refuses_example =
    read_file-refuses plenty memory 100 0 other_file (inr (λ e. absurd (ground (arith, e))))

load_items-empty_code_example :
    load_items plenty item_code 2 (items_bytes (Item.code (1 ∷ []) ∷ Item.code [] ∷ []) ++ []) empty
    ≡ none
load_items-empty_code_example =
    load_items-empty_code plenty (Item.code (1 ∷ []) ∷ []) [] [] empty empty-IsStored
      ((refl, omega arith, omega arith), tt)
