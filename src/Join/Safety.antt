-- ===== src/Join/Safety.antt =====
-- What the join protocol of libtask/task.c comes to, whatever the interleaving.
use koala_lang_pre.Prelude.{ℕ, ◌≡◌, ◌≢◌, Bool, true, false, none, some, arith}
use koala_lang_pre.Join.{
  Finisher, Joiner, Protocol, Reaches, ready, entry, stored, spinning, taken, readied, resulted,
  woke, alone, returned, asserted, finish_exchange, after_exchange, finisher_step, join_exchange,
  switch_from, joiner_step,
}
use koala_lang_pre.Join.Invariant.{At, expected, by_places, Reaches-IsExpected}

abbrev HasResult : ℕ → Protocol → Type 0
HasResult v p = p.joiner ≡ returned → p.shared.out ≡ some v

HasResult-places : (v : ℕ) (f : Finisher) (j : Joiner) → At (HasResult v) f j (expected v f j)
HasResult-places v entry j = ground arith
HasResult-places v stored j = ground arith
HasResult-places v spinning j = ground arith
HasResult-places v taken j = ground arith
HasResult-places v readied j = ground arith
HasResult-places v resulted j = ground arith
HasResult-places v woke j = ground arith
HasResult-places v alone j = ground arith
HasResult-places v Finisher.asserted j = tt

-- In every state that interleavings of the two sides reach, if `task_join` has returned 0, it has handed
-- out the result of the task's entry function.
pub joined_result :
    (v : ℕ) (p : Protocol) → Reaches v p → p.joiner ≡ returned → p.shared.out ≡ some v
joined_result v p r = by_places v (HasResult v) p (HasResult-places v) (Reaches-IsExpected v p r)

abbrev IsSound : Protocol → Type 0
IsSound p = p.finisher ≢ Finisher.asserted

IsSound-places : (v : ℕ) (f : Finisher) (j : Joiner) → At (IsSound) f j (expected v f j)
IsSound-places v entry j = ground arith
IsSound-places v stored j = ground arith
IsSound-places v spinning j = ground arith
IsSound-places v taken j = ground arith
IsSound-places v readied j = ground arith
IsSound-places v resulted j = ground arith
IsSound-places v woke j = ground arith
IsSound-places v alone j = ground arith
IsSound-places v Finisher.asserted j = tt

-- In every state that interleavings reach, no assertion of `task_go_routine` has failed.
pub finisher_sound : (v : ℕ) (p : Protocol) → Reaches v p → p.finisher ≢ Finisher.asserted
finisher_sound v p r = by_places v IsSound p (IsSound-places v) (Reaches-IsExpected v p r)

-- The finished task has written the state of the joining task.
abbrev pub is_waking : Finisher → Bool
is_waking readied = true
is_waking resulted = true
is_waking woke = true
is_waking _ = false

abbrev pub Raced : Protocol → Type 0
Raced p = p.joiner ≡ asserted → (p.shared.state ≡ ready) × (is_waking p.finisher ≡ true)

-- At the end of its side, or at a failed assertion.
abbrev pub is_over : Joiner → Bool
is_over returned = true
is_over asserted = true
is_over _ = false

abbrev pub is_finished : Finisher → Bool
is_finished alone = true
is_finished woke = true
is_finished _ = false

abbrev Ends : ℕ → Protocol → Type 0
Ends v p =
    finisher_step v p ≡ none
    → joiner_step p ≡ none
    → (is_finished p.finisher ≡ true) × (is_over p.joiner ≡ true)

Ends-places : (v : ℕ) (f : Finisher) (j : Joiner) → At (Ends v) f j (expected v f j)
unfolding finisher_step joiner_step finish_exchange after_exchange join_exchange switch_from
Ends-places v entry j = ground arith
Ends-places v stored j = ground arith
Ends-places v spinning j = ground arith
Ends-places v taken j = ground arith
Ends-places v readied j = ground arith
Ends-places v resulted j = ground arith
Ends-places v woke j = ground arith
Ends-places v alone j = ground arith
Ends-places v Finisher.asserted j = tt

-- There is no deadlock: in a state that interleavings reach, if neither side has a step left, then the
-- finished task is through and the call of `task_join` has returned, or failed an assertion.
pub no_deadlock :
    (v : ℕ) (p : Protocol)
    → Reaches v p
    → finisher_step v p ≡ none
    → joiner_step p ≡ none
    → (is_finished p.finisher ≡ true) × (is_over p.joiner ≡ true)
no_deadlock v p r = by_places v (Ends v) p (Ends-places v) (Reaches-IsExpected v p r)
