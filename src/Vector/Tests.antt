-- ===== src/Vector/Tests.antt =====
-- A vector that is filled past its first room, and the theorems at it.
use koala_lang_pre.Prelude.{pos, ℕ, ◌≡◌, refl, Bool, true, false, Option, some, List, [], ◌∷◌}
use koala_lang_pre.Vector.{
  Vector, init, copy_items, expand, store, set_at, set, append, get, get_last, concat_from, concat,
  visit_from, fini,
}
use koala_lang_pre.Vector.Laws.{Models, init-Models}
use koala_lang_pre.Vector.Methods.{Sets, set-Sets, append-Models}

program : Unit {0}
unfolding init copy_items expand store set_at set append get get_last concat_from concat visit_from
    fini
program = tt

abbrev plenty : ℕ → Bool
plenty n = true

abbrev push_all : List ℕ → Vector ℕ → Vector ℕ
push_all [] v = v
push_all (x ∷ xs) v = push_all xs (append plenty v (some x)).0

abbrev nine : Vector ℕ
nine = push_all (1 ∷ 2 ∷ 3 ∷ 4 ∷ 5 ∷ 6 ∷ 7 ∷ 8 ∷ 9 ∷ []) init

nine_grows : (nine.capacity ≡ 16) × (get nine (pos 8) ≡ some 9) × (get_last nine ≡ some 9)
unfolding program
nine_grows = (refl, refl, refl)

abbrev x : Option ℕ
x = some 4

abbrev y : Option ℕ
y = some 6

abbrev four : Vector ℕ
four = (append plenty init x).0

four-Models : Models four (x ∷ [])
four-Models = (append-Models plenty init x (λ n. refl) init-Models).1

set-Sets_example : Sets plenty four (x ∷ []) 1 y (set plenty four (pos 1) y)
set-Sets_example = set-Sets plenty four 1 y four-Models

-- A refused request leaves the vector as it was.
no_memory : append (λ _. false) init x ≡ (init, false)
unfolding program
no_memory = refl
