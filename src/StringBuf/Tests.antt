-- ===== src/StringBuf/Tests.antt =====
-- Formats at concrete texts, and the theorems there.
use koala_lang_pre.Prelude.{
  ◌==◌, if◌then◌else◌, length, ℕ, ◌+◌, ◌≡◌, refl, Bool, true, List, [], ◌∷◌, ◌++◌, arith,
}
use koala_lang_pre.StringBuf.{empty, round_up, expand, available, append, append_char, format}
use koala_lang_pre.StringBuf.Format.{substitute, empty-IsSmall, Appends, format_small}
use koala_lang_pre.StringBuf.Laws.{room, append_lem}

program : Unit {0}
unfolding round_up expand available append append_char format
program = tt

abbrev plenty : ℕ → Bool
plenty n = true

abbrev name : List ℕ
name = b'a' ∷ b'b' ∷ []

abbrev hash_dot : List ℕ
hash_dot = b'#' ∷ b'.' ∷ b'#' ∷ []

format_runs : (format plenty empty hash_dot (name ∷ name ∷ [])).text ≡ name ++ b'.' ∷ name
unfolding program
format_runs = refl

format_small_example :
    Appends empty (format plenty empty hash_dot (name ∷ [])) (substitute hash_dot (name ∷ []))
format_small_example =
    format_small plenty (λ n. refl) empty hash_dot (name ∷ []) empty-IsSmall
      (unfold substitute in omega arith)

append_lem_example : append plenty empty name ≡ (
    if 0 + length name + 1 == room empty (length name)
    then record empty { size = room empty (length name) }
    else record { length = 0 + length name; size = room empty (length name); text = [] ++ name })
append_lem_example = append_lem plenty (λ n. refl) empty name (omega arith) refl
