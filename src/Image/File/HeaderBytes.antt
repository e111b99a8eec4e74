-- ===== src/Image/File/HeaderBytes.antt =====
-- The header of an image's file: written, read back, and refused.
use koala_lang_pre.Prelude.{
  ltb, length, take, drop, replicate, length-append, length-replicate, take-append, drop-length, ℕ,
  zero, suc, ◌-◌, ◌^◌, ◌≤◌, ◌<◌, ◌≡◌, refl, sym, ap, ◌∙◌, subst, true, false, Option, none, some,
  List, [], ◌∷◌, ◌++◌, append_assoc, arith,
}
use koala_lang_pre.Image.Format.{words_bytes}
use koala_lang_pre.Image.Format.Fits.{read_words-words_bytes}
use koala_lang_pre.Image.Format.RoundTrip.{length-words_bytes}
use koala_lang_pre.Image.File.{Header, init_header, pkg_name, header_bytes}
use koala_lang_pre.Image.File.Input.{read_header, header_check}

-- A header with the magic number, the sizes that `init_header` gives, and numbers that fit their words.
pub record HeaderFits (h : Header) : Type 0 where
  pub magic : h.magic ≡ 75 ∷ 76 ∷ 67 ∷ 0 ∷ []
  pub version : length h.version ≡ 4
  pub header_size : h.header_size ≡ 96
  pub map_offset : h.map_offset ≡ 96
  pub endian_tag : h.endian_tag < 2 ^ 32
  pub crc32 : h.crc32 < 2 ^ 32
  pub pkgname : length h.pkgname ≡ 64

length-pkg_name : (name : Option (List ℕ)) → length (pkg_name name) ≡ 64
length-pkg_name none = refl
length-pkg_name (some name) = omega (
  arith,
  length-append (take 63 name) (replicate (64 - length (take 63 name)) 0),
  length-replicate {A = ℕ} (64 - length (take 63 name)) 0,
  at_most 63 name,
)
  where
    at_most : (n : ℕ) (xs : List ℕ) → length (take n xs) ≤ n
    at_most zero xs = omega arith
    at_most (suc n) [] = omega arith
    at_most (suc n) (x ∷ xs) = omega (arith, at_most n xs)

pub init_header-HeaderFits : (name : Option (List ℕ)) → HeaderFits (init_header name)
unfolding init_header
init_header-HeaderFits name = record {
  magic = refl;
  version = refl;
  header_size = refl;
  map_offset = refl;
  endian_tag = omega arith;
  crc32 = omega arith;
  pkgname = length-pkg_name name;
}

pub drop-prefix : (n : ℕ) (xs ys : List ℕ) → length xs ≡ n → drop n (xs ++ ys) ≡ ys
drop-prefix n xs ys e = subst (λ (n : ℕ). drop n (xs ++ ys) ≡ ys) e (drop-length xs ys)

abbrev words : Header → List ℕ
words h = h.file_size ∷ h.header_size ∷ h.endian_tag ∷ h.map_offset ∷ h.map_size ∷ h.crc32 ∷ []

module _ (h : Header) (f : HeaderFits h) where
  pub length-header_bytes : length (header_bytes h) ≡ 96
  unfolding header_bytes
  length-header_bytes =
      let front = h.magic ++ h.version in
      omega (
        arith,
        length-append (front ++ words_bytes (words h)) h.pkgname,
        length-append front (words_bytes (words h)),
        length-append h.magic h.version,
        length-words_bytes (words h),
        ap length f.magic,
        f.version,
        f.pkgname,
      )

  header_bytes-front :
      (rest : List ℕ)
      → header_bytes h ++ rest
        ≡ h.magic ++ (h.version ++ (words_bytes (words h) ++ (h.pkgname ++ rest)))
  unfolding header_bytes
  header_bytes-front rest =
      append_assoc ((h.magic ++ h.version) ++ words_bytes (words h)) h.pkgname rest
      ∙ append_assoc (h.magic ++ h.version) (words_bytes (words h)) (h.pkgname ++ rest)
      ∙ append_assoc h.magic h.version (words_bytes (words h) ++ (h.pkgname ++ rest))

  pub read_header-header_bytes :
      (rest : List ℕ)
      → h.file_size < 2 ^ 32
      → h.map_size < 2 ^ 32
      → read_header (header_bytes h ++ rest) ≡ some h
  unfolding read_header
  read_header-header_bytes rest small few =
      let front = h.magic ++ h.version in
      let more = words_bytes (words h) ++ (h.pkgname ++ rest) in
      let d4 : drop 4 (h.magic ++ (h.version ++ more)) ≡ h.version ++ more =
        drop-prefix 4 h.magic (h.version ++ more) (ap length f.magic) in
      let d8 : drop 8 (h.magic ++ (h.version ++ more)) ≡ more =
        ap (drop 8) (sym (append_assoc h.magic h.version more))
        ∙ drop-prefix 8 front more
            (length-append h.magic h.version ∙ omega (arith, ap length f.magic, f.version)) in
      let t4 : take 4 (h.magic ++ (h.version ++ more)) ≡ h.magic =
        take-append h.magic (h.version ++ more) 4 (sym (ap length f.magic)) in
      let tv = take-append h.version more 4 (sym f.version) in
      let r = read_words-words_bytes (words h) (h.pkgname ++ rest) (
        small,
        (
          omega (arith, f.header_size),
          (f.endian_tag, (omega (arith, f.map_offset), (few, (f.crc32, tt)))),
        ),
      ) in
      let enough : ltb (length (h.pkgname ++ rest)) 64 ≡ false =
        ground (arith, length-append h.pkgname rest, f.pkgname) in
      rw
        (
          header_bytes-front rest,
          d8,
          t4,
          d4,
          tv,
          r,
          enough,
          take-append h.pkgname rest 64 (sym f.pkgname),
        )
        refl

  pub header_check-magic : header_check h ≡ true
  unfolding header_check
  header_check-magic = rw f.magic refl
