-- ===== src/Deque/Tests.antt =====
-- A deque of two nodes behind the node at 9.
use koala_lang_pre.Prelude.{◌≡◌, refl, none, [], ◌∷◌}
use koala_lang_pre.Deque.{Deque, Links, init, pop_first, pop_head, push_tail}
use koala_lang_pre.Deque.Laws.{Holds, Pops, push_tail-Holds, pop_head-Pops}

program : Unit {0}
unfolding init pop_first pop_head push_tail
program = tt

abbrev unlinked : Links
unlinked a = none

abbrev fresh : Deque
fresh = record { count = 0; head = 9; tail = 9 }

fresh-Holds : Holds fresh unlinked []
fresh-Holds = record { leads = (refl, refl); distinct = (refl, tt); counted = refl }

one-Holds : Holds (push_tail fresh unlinked 4).0 (push_tail fresh unlinked 4).1 (4 ∷ [])
one-Holds = push_tail-Holds fresh unlinked [] 4 fresh-Holds refl refl

pop_head-Pops_example :
    Pops (4 ∷ []) (pop_head (push_tail fresh unlinked 4).0 (push_tail fresh unlinked 4).1)
pop_head-Pops_example =
    pop_head-Pops (push_tail fresh unlinked 4).0 (push_tail fresh unlinked 4).1 (4 ∷ []) one-Holds

-- The last node that is taken leaves the tail at the head.
empty_runs : (pop_head (push_tail fresh unlinked 4).0 (push_tail fresh unlinked 4).1).0 ≡ fresh
unfolding program
empty_runs = refl
