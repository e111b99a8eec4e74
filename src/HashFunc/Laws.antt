-- ===== src/HashFunc/Laws.antt =====
-- What the hash functions compute.
use koala_lang_pre.Prelude.{
  take, ℕ, zero, suc, ◌+◌, ◌-◌, ◌*◌, ◌/◌, ◌%◌, ◌^◌, ◌<◌, ◌≡◌, refl, ap, List, [], ◌∷◌, arith,
}
use koala_lang_pre.HashFunc.{
  hash_uint64, golden_ratio_prime_64, char_value, hash_string, hash_from, hash_nstring, nhash_from,
}

-- The shifts and sums of `hash_uint64` are a product with the constant that the file defines for it,
-- cut to 64 bits, whose highest bits are returned.
pub hash_uint64-mul :
    (val bits : ℕ)
    → val < 2 ^ 64
    → hash_uint64 val bits ≡ val * golden_ratio_prime_64 % 2 ^ 64 / 2 ^ (64 - bits)
unfolding hash_uint64
hash_uint64-mul val bits h = ap (λ (n : ℕ). n / 2 ^ (64 - bits)) (omega arith)

nhash_from-take :
    (val : ℕ) (str : List ℕ) (len : ℕ) → nhash_from val str len ≡ hash_from val (take len str)
unfolding nhash_from hash_from
nhash_from-take val [] zero = refl
nhash_from-take val [] (suc len) = refl
nhash_from-take val (c ∷ str) zero = refl
nhash_from-take val (c ∷ str) (suc len) =
    nhash_from-take ((val * 131 + char_value c) % 2 ^ 32) str len

-- The hash of the first `len` bytes is that of the string that they are.
pub hash_nstring-take : (str : List ℕ) (len : ℕ) → hash_nstring str len ≡ hash_string (take len str)
unfolding hash_nstring hash_string
hash_nstring-take str len = nhash_from-take 0 str len

hash_from-lt : (val : ℕ) (str : List ℕ) → val < 2 ^ 32 → hash_from val str < 2 ^ 32
unfolding hash_from
hash_from-lt val [] h = h
hash_from-lt val (c ∷ str) h = hash_from-lt ((val * 131 + char_value c) % 2 ^ 32) str (omega arith)

pub hash_string-lt : (str : List ℕ) → hash_string str < 2 ^ 32
unfolding hash_string
hash_string-lt str = hash_from-lt 0 str (omega arith)
