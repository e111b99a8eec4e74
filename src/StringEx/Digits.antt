-- ===== src/StringEx/Digits.antt =====
-- Numbers by their digits: the notations of `string_to_int64`, without the code.
use koala_lang_pre.Prelude.{
  ltb, ◌==◌, if◌then◌else◌, length, ℕ, ◌+◌, ◌-◌, ◌*◌, ◌^◌, Option, none, some, List, [], ◌∷◌,
}

pub data Notation : Type 0 where
  decimal octal hex : Notation

-- The digits of a notation, each with its value; there is no capital F.
abbrev pub digits_of : Notation → List (ℕ × ℕ)
digits_of decimal =
    (b'0', 0)
    ∷ (b'1', 1)
    ∷ (b'2', 2)
    ∷ (b'3', 3)
    ∷ (b'4', 4)
    ∷ (b'5', 5)
    ∷ (b'6', 6)
    ∷ (b'7', 7)
    ∷ (b'8', 8)
    ∷ (b'9', 9)
    ∷ []
digits_of octal =
    (b'0', 0)
    ∷ (b'1', 1)
    ∷ (b'2', 2)
    ∷ (b'3', 3)
    ∷ (b'4', 4)
    ∷ (b'5', 5)
    ∷ (b'6', 6)
    ∷ (b'7', 7)
    ∷ []
digits_of hex =
    (b'0', 0)
    ∷ (b'1', 1)
    ∷ (b'2', 2)
    ∷ (b'3', 3)
    ∷ (b'4', 4)
    ∷ (b'5', 5)
    ∷ (b'6', 6)
    ∷ (b'7', 7)
    ∷ (b'8', 8)
    ∷ (b'9', 9)
    ∷ (b'a', 10)
    ∷ (b'b', 11)
    ∷ (b'c', 12)
    ∷ (b'd', 13)
    ∷ (b'e', 14)
    ∷ (b'f', 15)
    ∷ (b'A', 10)
    ∷ (b'B', 11)
    ∷ (b'C', 12)
    ∷ (b'D', 13)
    ∷ (b'E', 14)
    ∷ []

abbrev pub value_of : ℕ → List (ℕ × ℕ) → Option ℕ
value_of c [] = none
value_of c (d ∷ digits) = if c == d.0 then some d.1 else value_of c digits

abbrev pub base_of : Notation → ℕ
base_of decimal = 10
base_of octal = 8
base_of hex = 16

-- A digit at a place of the given weight, and the number behind it.
abbrev pub at_place : Option ℕ → ℕ → Option ℕ → Option ℕ
at_place none weight rest = none
at_place (some d) weight none = none
at_place (some d) weight (some r) = some (d * weight + r)

-- The number that digits stand for by their places; `none` if a character is no digit.
unfoldable pub place_value : Notation → List ℕ → Option ℕ
place_value n [] = some 0
place_value n (c ∷ cs) =
    at_place (value_of c (digits_of n)) (base_of n ^ length cs) (place_value n cs)

-- The number, or the greatest `int64`.
abbrev pub to_int64 : ℕ → ℕ
to_int64 n = if ltb n (2 ^ 63) then n else 2 ^ 63 - 1

-- What is to be read of the digits of a notation.
unfoldable pub reads : Notation → List ℕ → Option ℕ
unfolding place_value
reads n ds = elim (place_value n ds) [ none ↦ none | some v ↦ some (to_int64 v) ]
