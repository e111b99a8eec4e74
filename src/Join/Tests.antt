-- ===== src/Join/Tests.antt =====
-- Two interleavings of the join protocol: one that ends, and one in which an assertion fails.
use koala_lang_pre.Prelude.{
  Option-cases, ℕ, ◌≡◌, refl, subst, inl, inr, Bool, true, false, Option, none, some, List, [], ◌∷◌,
  arith,
}
use koala_lang_pre.Join.{
  Protocol, Reaches, finish, join, begin, then_step, start, finisher_step, joiner_step,
  finish_exchange, after_exchange, join_exchange, switch_from, Joiner, returned, asserted, woke,
  wait_for_joiner, running, ready,
}
use koala_lang_pre.Join.Safety.{joined_result, no_deadlock, is_finished, is_over}

program : Unit {0}
unfolding finisher_step joiner_step finish_exchange after_exchange join_exchange switch_from
program = tt

-- The state after a list of moves: `true` for the finished task's.
abbrev run : ℕ → List Bool → Protocol → Option Protocol
run v [] p = some p
run v (true ∷ moves) p = elim (finisher_step v p) [ none ↦ none | some q ↦ run v moves q ]
run v (false ∷ moves) p = elim (joiner_step p) [ none ↦ none | some q ↦ run v moves q ]

-- The join comes first, and the task is switched away from before the other one ends.
abbrev calm : List Bool
calm = false ∷ false ∷ false ∷ false ∷ true ∷ true ∷ true ∷ true ∷ true ∷ true ∷ false ∷ false ∷ []

-- The other one ends between the write of `join_task` and the switch.
abbrev hasty : List Bool
hasty = false ∷ false ∷ false ∷ true ∷ true ∷ true ∷ true ∷ false ∷ []

abbrev place : Option Protocol → Option Joiner
place none = none
place (some p) = some p.joiner

calm_runs : place (run 5 calm start) ≡ some returned
unfolding program
calm_runs = refl

hasty_runs : place (run 5 hasty start) ≡ some asserted
unfolding program
hasty_runs = refl

Reaches-run :
    (v : ℕ) (moves : List Bool) (p q : Protocol)
    → Reaches v p
    → run v moves p ≡ some q
    → Reaches v q
Reaches-run v [] p q r e = subst (Reaches v) (ground arith) r
Reaches-run v (true ∷ moves) p q r e = elim (Option-cases (finisher_step v p)) [
  | inl n ↦ absurd (ground arith)
  | inr (m, s) ↦ Reaches-run v moves m q (then_step r (finish s)) (rw (s, run) at e)
]
Reaches-run v (false ∷ moves) p q r e = elim (Option-cases (joiner_step p)) [
  | inl n ↦ absurd (ground arith)
  | inr (m, s) ↦ Reaches-run v moves m q (then_step r (join s)) (rw (s, run) at e)
]

-- Where the calm run ends, and where the hasty one does.
abbrev joined : Protocol
joined = record {
  finisher = woke;
  joiner = returned;
  shared = record {
    join_state = wait_for_joiner;
    join_task = false;
    result = some 5;
    state = running;
    joined = some 5;
    queued = false;
    out = some 5;
  };
}

abbrev raced : Protocol
raced = record {
  finisher = woke;
  joiner = asserted;
  shared = record {
    join_state = wait_for_joiner;
    join_task = false;
    result = some 5;
    state = ready;
    joined = some 5;
    queued = true;
    out = none;
  };
}

Reaches-joined : Reaches 5 joined
unfolding program
Reaches-joined = Reaches-run 5 calm start joined begin refl

joined_result_example : joined.shared.out ≡ some 5
joined_result_example = joined_result 5 joined Reaches-joined refl

no_deadlock_example : (is_finished joined.finisher ≡ true) × (is_over joined.joiner ≡ true)
no_deadlock_example =
    no_deadlock 5 joined Reaches-joined (unfold program in refl) (unfold program in refl)
