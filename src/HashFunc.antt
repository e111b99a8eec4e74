-- ===== src/HashFunc.antt =====
-- src/hashfunc.c, include/hashfunc.h: the hash functions of numbers and strings.
-- A `uint32` is a number below 2^32 and a `uint64` one below 2^64; `char` is signed.
pub mod Laws
mod Tests
use koala_lang_pre.Prelude.{
  ltb, if◌then◌else◌, ℕ, zero, suc, ◌+◌, ◌-◌, ◌*◌, ◌/◌, ◌%◌, ◌^◌, List, [], ◌∷◌,
}

-- A product is kept to 64 bits, so shifts by 18, 33, 3, 3, 4 and 2 reach 63.
unfoldable pub hash_uint64 : ℕ → ℕ → ℕ
hash_uint64 val bits =
    let m : ℕ = 2 ^ 64 in
    let n = val * 2 ^ 18 % m in
    let hash = (val + m - n) % m in
    let n = n * 2 ^ 33 % m in
    let hash = (hash + m - n) % m in
    let n = n * 2 ^ 3 % m in
    let hash = (hash + n) % m in
    let n = n * 2 ^ 3 % m in
    let hash = (hash + m - n) % m in
    let n = n * 2 ^ 4 % m in
    let hash = (hash + n) % m in
    let n = n * 2 ^ 2 % m in let hash = (hash + n) % m in hash / 2 ^ (64 - bits)

-- `GOLDEN_RATIO_PRIME_32`
abbrev pub golden_ratio_prime_32 : ℕ
golden_ratio_prime_32 = 0x9e370001

-- `GOLDEN_RATIO_PRIME_64`
abbrev pub golden_ratio_prime_64 : ℕ
golden_ratio_prime_64 = 0x9e37fffffffc0001

unfoldable pub hash_uint32 : ℕ → ℕ → ℕ
hash_uint32 val bits = val * golden_ratio_prime_32 % 2 ^ 32 / 2 ^ (32 - bits)

-- A `char` that is added to a `uint32`.
abbrev pub char_value : ℕ → ℕ
char_value c = if ltb c 128 then c else c + 2 ^ 32 - 256

unfoldable pub hash_from : ℕ → List ℕ → ℕ
hash_from val [] = val
hash_from val (c ∷ str) = hash_from ((val * 131 + char_value c) % 2 ^ 32) str

unfoldable pub hash_string : List ℕ → ℕ
unfolding hash_from
hash_string str = hash_from 0 str

unfoldable pub nhash_from : ℕ → List ℕ → ℕ → ℕ
nhash_from val [] len = val
nhash_from val (c ∷ str) zero = val
nhash_from val (c ∷ str) (suc len) = nhash_from ((val * 131 + char_value c) % 2 ^ 32) str len

unfoldable pub hash_nstring : List ℕ → ℕ → ℕ
unfolding nhash_from
hash_nstring str len = nhash_from 0 str len
