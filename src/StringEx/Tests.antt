-- ===== src/StringEx/Tests.antt =====
-- Runs: numbers read from strings.
use koala_lang_pre.Prelude.{◌≡◌, refl, none, some, [], ◌∷◌, ◌++◌}
use koala_lang_pre.StringEx.{
  trim_left, trim_right, string_trim, all_of, number, read_number, string_to_int64,
}
use koala_lang_pre.StringEx.Digits.{hex, place_value, reads}
use koala_lang_pre.StringEx.Numbers.{string_to_int64-reads}

program : Unit {0}
unfolding trim_left trim_right string_trim all_of number read_number string_to_int64 place_value
    reads
program = tt

decimal_runs : string_to_int64 (b' ' ∷ b'4' ∷ b'0' ∷ b'7' ∷ b' ' ∷ []) ≡ some 407
unfolding program
decimal_runs = refl

octal_runs : string_to_int64 (b'0' ∷ b'1' ∷ b'7' ∷ []) ≡ some 15
unfolding program
octal_runs = refl

letter_runs : string_to_int64 (b'1' ∷ b'b' ∷ []) ≡ none
unfolding program
letter_runs = refl

-- The capital F is not a digit.
capital_runs : string_to_int64 (b'0' ∷ b'x' ∷ b'F' ∷ []) ≡ none
unfolding program
capital_runs = refl

empty_runs : string_to_int64 [] ≡ some 0
unfolding program
empty_runs = refl

value_runs : reads hex (b'1' ∷ b'f' ∷ []) ≡ some 31
unfolding program
value_runs = refl

string_to_int64-reads_example :
    string_to_int64 ((b' ' ∷ []) ++ ((b'0' ∷ b'x' ∷ b'1' ∷ b'f' ∷ []) ++ b' ' ∷ []))
    ≡ reads hex (b'1' ∷ b'f' ∷ [])
unfolding program
string_to_int64-reads_example =
    string_to_int64-reads hex (b' ' ∷ []) (b'1' ∷ b'f' ∷ []) (b' ' ∷ []) refl refl refl tt
