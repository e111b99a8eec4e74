-- ===== src/StringEx.antt =====
-- src/stringex.c, include/stringex.h: strings trimmed and read as numbers.
-- A string is the list of its bytes before the NUL. `strtoll` of digits alone is their number, or the
-- greatest that an `int64` holds. Copies of strings are the strings; the copy of a prefix, which writes no
-- NUL but the one that the allocator leaves, is left out.
pub mod Digits
pub mod Numbers
mod Tests
use koala_lang_pre.Prelude.{
  ltb, leb, ◌==◌, if◌then◌else◌, ℕ, ◌+◌, ◌-◌, ◌*◌, ◌^◌, min, Bool, true, ◌&&◌, ◌||◌, Option, none,
  some, List, [], ◌∷◌,
}

-- `isspace`
abbrev pub is_space : ℕ → Bool
is_space c = c == b' ' || leb 9 c && leb c 13

-- The first loop of `string_trim`.
unfoldable pub trim_left : List ℕ → List ℕ
trim_left [] = []
trim_left (c ∷ cs) = let rest = trim_left cs in if is_space c then rest else c ∷ cs

abbrev pub cons_or_space : ℕ → List ℕ → List ℕ
cons_or_space c [] = if is_space c then [] else c ∷ []
cons_or_space c (d ∷ ds) = c ∷ d ∷ ds

-- The loop from the end.
unfoldable pub trim_right : List ℕ → List ℕ
trim_right [] = []
trim_right (c ∷ cs) = cons_or_space c (trim_right cs)

-- `string_trim`
unfoldable pub string_trim : List ℕ → List ℕ
unfolding trim_left trim_right
string_trim s = trim_right (trim_left s)

-- The loops over the characters of a number.
unfoldable pub all_of : (ℕ → Bool) → List ℕ → Bool
all_of test [] = true
all_of test (c ∷ cs) = test c && all_of test cs

abbrev pub between : ℕ → ℕ → ℕ → Bool
between lo hi c = leb lo c && leb c hi

-- The test of a hexadecimal digit; `ch < 'F'` leaves out the last.
abbrev pub is_hex : ℕ → Bool
is_hex c = between b'0' b'9' c || between b'a' b'f' c || leb b'A' c && ltb c b'F'

-- What a digit stands for.
abbrev pub digit : ℕ → ℕ
digit c = if leb c b'9' then c - b'0' else if leb c b'F' then c - b'A' + 10 else c - b'a' + 10

-- The number that digits are in a base, after the digits that are read.
unfoldable pub number : ℕ → ℕ → List ℕ → ℕ
number base read [] = read
number base read (c ∷ cs) = number base (read * base + digit c) cs

abbrev pub clamp : ℕ → ℕ
clamp n = min n (2 ^ 63 - 1)

-- One of the branches of `string_to_int64`; `none` is -1.
abbrev pub read_digits : (ℕ → Bool) → ℕ → List ℕ → Option ℕ
read_digits test base cs = if all_of test cs then some (clamp (number base 0 cs)) else none

-- The branches of `string_to_int64` by the first two characters.
unfoldable pub read_number : List ℕ → Option ℕ
unfolding all_of number
read_number (c ∷ x ∷ cs) =
    if c == b'0' && (x == b'x' || x == b'X')
    then read_digits is_hex 16 cs
    else if c == b'0'
    then read_digits (between b'0' b'7') 8 (x ∷ cs)
    else read_digits (between b'0' b'9') 10 (c ∷ x ∷ cs)
read_number (c ∷ []) =
    if c == b'0'
    then read_digits (between b'0' b'7') 8 []
    else read_digits (between b'0' b'9') 10 (c ∷ [])
read_number [] = read_digits (between b'0' b'9') 10 []

-- `string_to_int64`
unfoldable pub string_to_int64 : List ℕ → Option ℕ
unfolding string_trim read_number
string_to_int64 s = read_number (string_trim s)
