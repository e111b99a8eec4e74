-- ===== src/Image/File/Refuses.antt =====
-- Files that `KImage_Read_File` refuses, and a file that it cannot read.
use koala_lang_pre.Prelude.{
  ltb, ◌==◌, Bool-cases, Option-cases, length, get_or, take, drop, length-drop, ℕ, zero, suc, ◌+◌,
  ◌*◌, ◌≤◌, ◌<◌, ◌≡◌, refl, sym, ap, ◌∙◌, ◌≢◌, ◌⊎◌, inl, inr, Bool, true, ◌&&◌, Option, none, some,
  List, [], ◌∷◌, ◌++◌, append_assoc, arith,
}
use koala_lang_pre.HashTable.{Heap}
use koala_lang_pre.AtomTable.{AtomEntry}
use koala_lang_pre.Image.{Table, item_code}
use koala_lang_pre.Image.Items.{Item}
use koala_lang_pre.Image.Format.{
  word_bytes, item_bytes, read_word, read_words, read_bytes, read_item,
}
use koala_lang_pre.Image.File.{Header, items_bytes}
use koala_lang_pre.Image.File.Input.{
  header_of, read_header, header_check, Loaded, load_items, read_file,
}
use koala_lang_pre.Image.Module.Growth.{>>=-some}
use koala_lang_pre.Image.File.Load.{IsStored, AllFitType, append-Loads}
use koala_lang_pre.Image.Format.RoundTrip.{read_item-item_bytes}
use koala_lang_pre.Image.Key.{entry_key}

-- What is left after the words of a read.
abbrev left_of : {A : Type 0} → Option (A × List ℕ) → ℕ
left_of none = 0
left_of (some r) = length r.1

four :
    (bytes : List ℕ) (w : ℕ) (rest : List ℕ)
    → read_word bytes ≡ some (w, rest)
    → length bytes ≡ 4 + length rest
unfolding read_word
four (a ∷ b ∷ c ∷ d ∷ bytes) w rest h = omega (arith, ap left_of h)
four (a ∷ b ∷ c ∷ []) w rest h = cc
four (a ∷ b ∷ []) w rest h = cc
four (a ∷ []) w rest h = cc
four [] w rest h = cc

read_words-left :
    (n : ℕ) (bytes ws rest : List ℕ)
    → read_words n bytes ≡ some (ws, rest)
    → length bytes ≡ n * 4 + length rest
unfolding read_words
read_words-left zero bytes ws rest h = omega (arith, ap left_of h)
read_words-left (suc n) bytes ws rest h =
    let (r, e, h') = >>=-some (read_word bytes) _ (ws, rest) h in
    let (q, e', h'') = >>=-some (read_words n r.1) _ (ws, rest) h' in
    let same : length q.1 ≡ length rest = ap left_of h'' in
    omega (arith, four bytes r.0 r.1 e, read_words-left n r.1 q.0 q.1 e', same)

header_of-short :
    (magic version ws rest : List ℕ) → length rest < 64 → header_of magic version ws rest ≡ none
header_of-short magic version [] rest h = refl
header_of-short magic version (a ∷ []) rest h = refl
header_of-short magic version (a ∷ b ∷ []) rest h = refl
header_of-short magic version (a ∷ b ∷ c ∷ []) rest h = refl
header_of-short magic version (a ∷ b ∷ c ∷ d ∷ []) rest h = refl
header_of-short magic version (a ∷ b ∷ c ∷ d ∷ e ∷ []) rest h = refl
header_of-short magic version (a ∷ b ∷ c ∷ d ∷ e ∷ f ∷ []) rest h =
    let short : ltb (length rest) 64 ≡ true = ground arith in rw short refl
header_of-short magic version (a ∷ b ∷ c ∷ d ∷ e ∷ f ∷ g ∷ ws) rest h = refl

abbrev magic_of : Option Header → List ℕ
magic_of none = []
magic_of (some h) = h.magic

header_of-magic :
    (magic version ws rest : List ℕ) (h : Header)
    → header_of magic version ws rest ≡ some h
    → h.magic ≡ magic
header_of-magic magic version [] rest h e = cc
header_of-magic magic version (a ∷ []) rest h e = cc
header_of-magic magic version (a ∷ b ∷ []) rest h e = cc
header_of-magic magic version (a ∷ b ∷ c ∷ []) rest h e = cc
header_of-magic magic version (a ∷ b ∷ c ∷ d ∷ []) rest h e = cc
header_of-magic magic version (a ∷ b ∷ c ∷ d ∷ f ∷ []) rest h e = cc
header_of-magic magic version (a ∷ b ∷ c ∷ d ∷ f ∷ g ∷ []) rest h e =
    elim (Bool-cases (ltb (length rest) 64)) [
      | inl short ↦ absurd (ground arith)
      | inr long ↦
          let made : magic_of (header_of magic version (a ∷ b ∷ c ∷ d ∷ f ∷ g ∷ []) rest) ≡ magic =
            rw long refl in
          sym (ap magic_of e) ∙ made
    ]
header_of-magic magic version (a ∷ b ∷ c ∷ d ∷ f ∷ g ∷ k ∷ ws) rest h e = cc

has_magic : List ℕ → Bool
has_magic xs = get_or xs 0 0 == 75 && get_or xs 1 0 == 76 && get_or xs 2 0 == 67

has_magic-take :
    (bytes : List ℕ) → has_magic (take 4 bytes) ≡ true → take 3 bytes ≡ 75 ∷ 76 ∷ 67 ∷ []
unfolding has_magic
has_magic-take [] h = cc
has_magic-take (a ∷ []) h = absurd (ground arith)
has_magic-take (a ∷ b ∷ []) h = absurd (ground arith)
has_magic-take (a ∷ b ∷ c ∷ bytes) h =
    let p : a ≡ 75 = ground arith in
    let q : b ≡ 76 = ground arith in let r : c ≡ 67 = ground arith in rw (p, q, r) refl

module _ (malloc : ℕ → Bool) (heap : Heap (AtomEntry Item)) (next unload : ℕ) (bytes : List ℕ) where
  -- A file whose header is read is long enough, and its magic number is its first bytes.
  read_header-some :
      (h : Header) → read_header bytes ≡ some h → (96 ≤ length bytes) × (h.magic ≡ take 4 bytes)
  unfolding read_header
  read_header-some h e =
      let (r, e', f) = >>=-some (read_words 6 (drop 8 bytes)) _ h e in
      let l = read_words-left 6 (drop 8 bytes) r.0 r.1 e' in
      let magic = header_of-magic (take 4 bytes) (take 4 (drop 4 bytes)) r.0 r.1 h f in
      elim (Bool-cases (ltb (length r.1) 64)) [
        | inl short ↦
            let lt : length r.1 < 64 = ground arith in
            let no = header_of-short (take 4 bytes) (take 4 (drop 4 bytes)) r.0 r.1 lt in
            absurd (ground (arith, sym no ∙ f))
        | inr long ↦
            let ge : 64 ≤ length r.1 = ground arith in
            (omega (arith, l, length-drop 8 bytes), magic)
      ]

  -- `KImage_Read_File` returns NULL for a file that is shorter than the header, and for one that does not
  -- begin with the magic number.
  pub read_file-refuses :
      (length bytes < 96) ⊎ (take 3 bytes ≢ 75 ∷ 76 ∷ 67 ∷ [])
      → read_file malloc heap next unload bytes ≡ Loaded.invalid
  unfolding read_file header_check has_magic
  read_file-refuses bad = elim (Option-cases (read_header bytes)) [
    | inl e ↦ rw (read_file, e) refl
    | inr (h, e) ↦ elim (Bool-cases (header_check h)) [
      | inl on ↦
          let (long, magic) = read_header-some h e in
          elim bad [
            | inl short ↦ absurd (omega arith)
            | inr differ ↦ absurd (differ (has_magic-take bytes (ap has_magic (sym magic) ∙ on)))
          ]
      | inr off ↦ rw (read_file, e, off) refl
    ]
  ]

-- Bytes of a function without code: `fread` of no bytes returns 0, and the assertion on it fails.
empty_code-none : (rest : List ℕ) → read_item item_code (item_bytes (Item.code []) ++ rest) ≡ none
unfolding read_item item_bytes word_bytes read_word read_bytes
empty_code-none rest = refl

-- The loop of `KImage_Read_File` over the code that a file holds fails an assertion at the first function
-- without code, if the code before it fits the format.
pub load_items-empty_code :
    (malloc : ℕ → Bool) (ds more : List Item) (rest : List ℕ) (u : Table)
    → IsStored u
    → AllFitType item_code ds
    → load_items malloc item_code
        (length (ds ++ Item.code [] ∷ more))
        (items_bytes (ds ++ Item.code [] ∷ more) ++ rest)
        u
      ≡ none
unfolding load_items items_bytes
load_items-empty_code malloc [] more rest u v fit =
    rw
      (
        append_assoc (item_bytes (Item.code [])) (items_bytes more) rest,
        empty_code-none (items_bytes more ++ rest),
      )
      refl
load_items-empty_code malloc (d ∷ ds) more rest u v (fit, fits) =
    let left = items_bytes (ds ++ Item.code [] ∷ more) in
    let (u1, i, e, s) =
      append-Loads malloc item_code (omega arith) (omega arith) u d v
        (λ unique. absurd (omega (arith, unique))) in
    let next = load_items-empty_code malloc ds more rest u1 s.stored fits in
    rw
      (
        append_assoc (item_bytes d) left rest,
        read_item-item_bytes item_code d (left ++ rest) fit,
        e,
      )
      next
