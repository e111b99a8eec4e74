-- ===== src/HashFunc/Tests.antt =====
-- Runs.
use koala_lang_pre.Prelude.{◌+◌, ◌-◌, ◌*◌, ◌/◌, ◌%◌, ◌^◌, ◌≡◌, refl, [], ◌∷◌, arith}
use koala_lang_pre.HashFunc.{hash_uint32, hash_uint64, golden_ratio_prime_64, hash_string}
use koala_lang_pre.HashFunc.Laws.{hash_uint64-mul}

ab_hash : hash_string (b'a' ∷ b'b' ∷ []) ≡ 97 * 131 + 98
unfolding hash_string
ab_hash = refl

-- A byte above 127 is a negative `char`.
high_hash : hash_string (255 ∷ []) ≡ 0xffffffff
unfolding hash_string
high_hash = refl

seven_hash : hash_uint32 7 32 ≡ 7 * 0x9e370001 % 2 ^ 32
unfolding hash_uint32
seven_hash = refl

hash_uint64-mul_example :
    hash_uint64 12345 20 ≡ 12345 * golden_ratio_prime_64 % 2 ^ 64 / 2 ^ (64 - 20)
hash_uint64-mul_example = hash_uint64-mul 12345 20 (omega arith)
