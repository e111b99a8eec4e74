-- ===== src/Join/Invariant.antt =====
-- What the two sides share is settled by their places, in every state that is reached.
use koala_lang_pre.Prelude.{ℕ, ◌≡◌, refl, subst, Bool, true, false, Option, none, some, arith}
use koala_lang_pre.Join.{
  JoinState, TaskState, Finisher, Joiner, Shared, Protocol, Reaches, joinable, wait_for_joiner,
  wait_to_join, running, ready, waiting, entry, stored, spinning, taken, readied, resulted, woke,
  alone, calling, noted, marked, published, parked, resumed, returned, asserted, finish_exchange,
  after_exchange, finisher_step, join_exchange, switch_from, joiner_step, finish, join, begin,
  then_step,
}

-- The places of the joining task before the finished task reads its address: `join_state`, `result` and
-- the place give the rest.
abbrev pub before : JoinState → Option ℕ → Joiner → Option Shared
before js r noted = some (record {
  join_state = js;
  join_task = false;
  result = r;
  state = running;
  joined = none;
  queued = false;
  out = none;
})
before js r marked = some (record {
  join_state = js;
  join_task = false;
  result = r;
  state = waiting;
  joined = none;
  queued = false;
  out = none;
})
before js r published = some (record {
  join_state = js;
  join_task = true;
  result = r;
  state = waiting;
  joined = none;
  queued = false;
  out = none;
})
before js r parked = some (record {
  join_state = js;
  join_task = true;
  result = r;
  state = waiting;
  joined = none;
  queued = false;
  out = none;
})
before js r _ = none

-- Nobody has come to join.
abbrev pub early : JoinState → Option ℕ → Option Shared
early js r = some (record {
  join_state = js;
  join_task = false;
  result = r;
  state = running;
  joined = none;
  queued = false;
  out = none;
})

-- The places while the finished task wakes the joining task.
abbrev pub during : TaskState → Option ℕ → Bool → ℕ → Joiner → Option Shared
during st jr q v published = some (record {
  join_state = wait_for_joiner;
  join_task = false;
  result = some v;
  state = st;
  joined = jr;
  queued = q;
  out = none;
})
during st jr q v parked = some (record {
  join_state = wait_for_joiner;
  join_task = false;
  result = some v;
  state = st;
  joined = jr;
  queued = q;
  out = none;
})
during ready jr q v asserted = some (record {
  join_state = wait_for_joiner;
  join_task = false;
  result = some v;
  state = ready;
  joined = jr;
  queued = q;
  out = none;
})
during st jr q v _ = none

abbrev pub after : ℕ → Joiner → Option Shared
after v resumed = some (record {
  join_state = wait_for_joiner;
  join_task = false;
  result = some v;
  state = running;
  joined = some v;
  queued = false;
  out = none;
})
after v returned = some (record {
  join_state = wait_for_joiner;
  join_task = false;
  result = some v;
  state = running;
  joined = some v;
  queued = false;
  out = some v;
})
after v j = during ready (some v) true v j

-- The shared fields at two places, `none` where the places are not reached together.
abbrev pub expected : ℕ → Finisher → Joiner → Option Shared
expected v entry calling = early joinable none
expected v entry j = before wait_to_join none j
expected v stored calling = early joinable (some v)
expected v stored j = before wait_to_join (some v) j
expected v spinning j = before wait_for_joiner (some v) j
expected v taken j = during waiting none false v j
expected v readied j = during ready none false v j
expected v resulted j = during ready (some v) false v j
expected v woke j = after v j
expected v alone calling = early wait_for_joiner (some v)
expected v alone returned = some (record {
  join_state = wait_to_join;
  join_task = false;
  result = some v;
  state = running;
  joined = none;
  queued = false;
  out = some v;
})
expected v alone _ = none
expected v Finisher.asserted j = none

abbrev pub IsExpected : ℕ → Protocol → Type 0
IsExpected v p = expected v p.finisher p.joiner ≡ some p.shared

-- A step from expected fields leads to expected fields.
abbrev pub Keeps : ℕ → Option Protocol → Type 0
Keeps v none = Unit {0}
Keeps v (some q) = IsExpected v q

abbrev pub at_places : Finisher → Joiner → Shared → Protocol
at_places f j s = record { finisher = f; joiner = j; shared = s }

-- A property at two places with the fields expected there, if they are reached together.
abbrev pub At : (Protocol → Type 0) → Finisher → Joiner → Option Shared → Type 0
At P f j none = Unit {0}
At P f j (some s) = P (at_places f j s)

At-some :
    (P : Protocol → Type 0) (f : Finisher) (j : Joiner) (o : Option Shared) (s : Shared)
    → At P f j o
    → o ≡ some s
    → P (at_places f j s)
At-some P f j none s h e = absurd (ground arith)
At-some P f j (some t) s h e = subst (At P f j) e h

pub by_places :
    (v : ℕ) (P : Protocol → Type 0) (p : Protocol)
    → ((f : Finisher) (j : Joiner) → At P f j (expected v f j))
    → IsExpected v p
    → P p
by_places v P p h e =
    At-some P p.finisher p.joiner (expected v p.finisher p.joiner) p.shared (h p.finisher p.joiner)
      e

finisher-Keeps :
    (v : ℕ) (f : Finisher) (j : Joiner) → At (λ p. Keeps v (finisher_step v p)) f j (expected v f j)
unfolding finisher_step finish_exchange after_exchange
finisher-Keeps v entry j = ground arith
finisher-Keeps v stored j = ground arith
finisher-Keeps v spinning j = ground arith
finisher-Keeps v taken j = ground arith
finisher-Keeps v readied j = ground arith
finisher-Keeps v resulted j = ground arith
finisher-Keeps v woke j = ground arith
finisher-Keeps v alone j = ground arith
finisher-Keeps v Finisher.asserted j = tt

joiner-Keeps :
    (v : ℕ) (f : Finisher) (j : Joiner) → At (λ p. Keeps v (joiner_step p)) f j (expected v f j)
unfolding joiner_step join_exchange switch_from
joiner-Keeps v entry j = ground arith
joiner-Keeps v stored j = ground arith
joiner-Keeps v spinning j = ground arith
joiner-Keeps v taken j = ground arith
joiner-Keeps v readied j = ground arith
joiner-Keeps v resulted j = ground arith
joiner-Keeps v woke j = ground arith
joiner-Keeps v alone j = ground arith
joiner-Keeps v Finisher.asserted j = tt

Keeps-some : (v : ℕ) (o : Option Protocol) (q : Protocol) → Keeps v o → o ≡ some q → IsExpected v q
Keeps-some v none q h e = absurd (ground arith)
Keeps-some v (some r) q h e = subst (Keeps v) e h

pub Reaches-IsExpected : (v : ℕ) (p : Protocol) → Reaches v p → IsExpected v p
Reaches-IsExpected v _ begin = refl
Reaches-IsExpected v q (then_step {p} r (finish e)) =
    Keeps-some v (finisher_step v p) q
      (by_places v (λ p. Keeps v (finisher_step v p)) p (finisher-Keeps v)
        (Reaches-IsExpected v p r))
      e
Reaches-IsExpected v q (then_step {p} r (join e)) =
    Keeps-some v (joiner_step p) q
      (by_places v (λ p. Keeps v (joiner_step p)) p (joiner-Keeps v) (Reaches-IsExpected v p r)) e
