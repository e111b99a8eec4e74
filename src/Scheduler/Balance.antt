-- ===== src/Scheduler/Balance.antt =====
-- Balancing moves tasks between processors and loses none.
use koala_lang_pre.Prelude.{
  ◌==◌, to_nat, length, set, length-set, ℕ, zero, suc, ◌+◌, ◌-◌, ◌%◌, ◌<◌, ◌≡◌, refl, ap, ◌∙◌,
  Option, none, some, List, [], ◌∷◌, ◌++◌, arith,
}
use koala_lang_pre.Scheduler.{
  Scheduler, get_scheduler, push, pop_queue, pop, take_in, schedule, sched_get_task, count_steal,
  steal_one, steal, num_steal, balance_from, sched_load_balance,
}

-- How often a task stands in a queue.
abbrev pub times : ℕ → List ℕ → ℕ
times task [] = 0
times task (t ∷ ts) = to_nat (task == t) + times task ts

-- How often it stands in the queues of all processors.
abbrev pub times_all : ℕ → List Scheduler → ℕ
times_all task [] = 0
times_all task (s ∷ scheds) = times task s.queue + times_all task scheds

times-snoc :
    (task t : ℕ) (ts : List ℕ) → times task (ts ++ t ∷ []) ≡ times task ts + to_nat (task == t)
times-snoc task t [] = omega arith
times-snoc task t (x ∷ ts) = omega (arith, times-snoc task t ts)

times_all-set :
    (task i : ℕ) (s : Scheduler) (scheds : List Scheduler)
    → i < length scheds
    → times_all task (set scheds i s) + times task (get_scheduler scheds i).queue
      ≡ times_all task scheds + times task s.queue
times_all-set task i s [] h = absurd (omega arith)
times_all-set task zero s (x ∷ scheds) h = omega arith
times_all-set task (suc i) s (x ∷ scheds) h =
    omega (arith, times_all-set task i s scheds (omega arith))

length-push :
    (scheds : List Scheduler) (proc task : ℕ) → length (push scheds proc task) ≡ length scheds
unfolding push
length-push scheds proc task = length-set {0} scheds proc _

length-pop_queue :
    (scheds : List Scheduler) (proc : ℕ) (q : List ℕ)
    → length (pop_queue scheds proc q).0 ≡ length scheds
unfolding pop_queue
length-pop_queue scheds proc [] = refl
length-pop_queue scheds proc (t ∷ q) = length-set {0} scheds proc _

length-pop : (scheds : List Scheduler) (proc : ℕ) → length (pop scheds proc).0 ≡ length scheds
unfolding pop
length-pop scheds proc = length-pop_queue scheds proc (get_scheduler scheds proc).queue

length-count_steal :
    (scheds : List Scheduler) (proc : ℕ) → length (count_steal scheds proc) ≡ length scheds
unfolding count_steal
length-count_steal scheds proc = length-set {0} scheds proc _

times_all-push :
    (task t proc : ℕ) (scheds : List Scheduler)
    → proc < length scheds
    → times_all task (push scheds proc t) ≡ times_all task scheds + to_nat (task == t)
unfolding push
times_all-push task t proc scheds h =
    let s = get_scheduler scheds proc in
    omega (
      arith,
      times_all-set task proc (record s { queue = s.queue ++ t ∷ [] }) scheds h,
      times-snoc task t s.queue,
    )

times_all-count_steal :
    (task proc : ℕ) (scheds : List Scheduler)
    → proc < length scheds
    → times_all task (count_steal scheds proc) ≡ times_all task scheds
unfolding count_steal
times_all-count_steal task proc scheds h =
    let s = get_scheduler scheds proc in
    omega (arith, times_all-set task proc (record s { steal_count = s.steal_count + 1 }) scheds h)

-- What was taken, if anything.
abbrev pub taken : ℕ → Option ℕ → ℕ
taken task none = 0
taken task (some t) = to_nat (task == t)

times_all-pop_queue :
    (task proc : ℕ) (scheds : List Scheduler) (q : List ℕ)
    → proc < length scheds
    → (get_scheduler scheds proc).queue ≡ q
    → times_all task (pop_queue scheds proc q).0 + taken task (pop_queue scheds proc q).1
      ≡ times_all task scheds
unfolding pop_queue
times_all-pop_queue task proc scheds [] h e = omega arith
times_all-pop_queue task proc scheds (t ∷ q) h e =
    let s = get_scheduler scheds proc in
    omega (arith, times_all-set task proc (record s { queue = q }) scheds h, ap (times task) e)

times_all-pop :
    (task proc : ℕ) (scheds : List Scheduler)
    → proc < length scheds
    → times_all task (pop scheds proc).0 + taken task (pop scheds proc).1 ≡ times_all task scheds
unfolding pop
times_all-pop task proc scheds h =
    times_all-pop_queue task proc scheds (get_scheduler scheds proc).queue h refl

length-take_in :
    (scheds : List Scheduler) (proc : ℕ) (o : Option ℕ)
    → length (take_in scheds proc o) ≡ length scheds
unfolding take_in
length-take_in scheds proc none = refl
length-take_in scheds proc (some t) =
    length-count_steal (push scheds proc t) proc ∙ length-push scheds proc t

times_all-take_in :
    (task proc : ℕ) (scheds : List Scheduler) (o : Option ℕ)
    → proc < length scheds
    → times_all task (take_in scheds proc o) ≡ times_all task scheds + taken task o
unfolding take_in
times_all-take_in task proc scheds none h = omega arith
times_all-take_in task proc scheds (some t) h =
    times_all-count_steal task proc (push scheds proc t) (omega (arith, length-push scheds proc t))
    ∙ times_all-push task t proc scheds h

length-steal_one :
    (scheds : List Scheduler) (proc other : ℕ)
    → length (steal_one scheds proc other) ≡ length scheds
unfolding steal_one
length-steal_one scheds proc other =
    length-take_in (pop scheds other).0 proc (pop scheds other).1 ∙ length-pop scheds other

times_all-steal_one :
    (task proc other : ℕ) (scheds : List Scheduler)
    → proc < length scheds
    → other < length scheds
    → times_all task (steal_one scheds proc other) ≡ times_all task scheds
unfolding steal_one
times_all-steal_one task proc other scheds h k =
    times_all-take_in task proc (pop scheds other).0 (pop scheds other).1
      (omega (arith, length-pop scheds other))
    ∙ times_all-pop task other scheds k

times_all-steal :
    (n task proc other : ℕ) (scheds : List Scheduler)
    → proc < length scheds
    → other < length scheds
    → (times_all task (steal n scheds proc other) ≡ times_all task scheds)
      × (length (steal n scheds proc other) ≡ length scheds)
unfolding steal
times_all-steal zero task proc other scheds h k = (refl, refl)
times_all-steal (suc n) task proc other scheds h k =
    let w = length-steal_one scheds proc other in
    let r =
      times_all-steal n task proc other (steal_one scheds proc other) (omega arith) (omega arith) in
    (r.0 ∙ times_all-steal_one task proc other scheds h k, r.1 ∙ w)

times_all-balance_from :
    (rounds i count task proc : ℕ) (scheds : List Scheduler)
    → proc < length scheds
    → (times_all task (balance_from rounds i count scheds proc) ≡ times_all task scheds)
      × (length (balance_from rounds i count scheds proc) ≡ length scheds)
unfolding balance_from
times_all-balance_from zero i count task proc scheds h = (refl, refl)
times_all-balance_from (suc rounds) i count task proc scheds h =
    let other = (i + 1) % length scheds in
    let n = num_steal scheds count other in
    let small : other < length scheds = omega arith in
    let r = times_all-steal n task proc other scheds h small in
    let q =
      times_all-balance_from rounds (i + 1) count task proc (steal n scheds proc other)
        (omega (arith, r.1)) in
    (q.0 ∙ r.0, q.1 ∙ r.1)

-- Balancing for a processor that exists leaves every task in the queues as often as it was, and leaves
-- as many processors.
pub times_all-sched_load_balance :
    (task proc : ℕ) (scheds : List Scheduler)
    → proc < length scheds
    → (times_all task (sched_load_balance scheds proc) ≡ times_all task scheds)
      × (length (sched_load_balance scheds proc) ≡ length scheds)
unfolding sched_load_balance
times_all-sched_load_balance task proc scheds h =
    times_all-balance_from (length scheds - 1) proc (length (get_scheduler scheds proc).queue) task
      proc scheds h

-- A task that is scheduled on a processor that exists is in the queues once more, and the others as
-- often as before.
pub times_all-schedule :
    (task t proc : ℕ) (scheds : List Scheduler)
    → proc < length scheds
    → times_all task (schedule scheds proc t) ≡ times_all task scheds + to_nat (task == t)
unfolding schedule
times_all-schedule = times_all-push

-- The task that a processor that exists gets, if any, is in the queues once less, and the others as
-- often as before.
pub times_all-sched_get_task :
    (task proc : ℕ) (scheds : List Scheduler)
    → proc < length scheds
    → times_all task (sched_get_task scheds proc).0 + taken task (sched_get_task scheds proc).1
      ≡ times_all task scheds
unfolding sched_get_task
times_all-sched_get_task = times_all-pop
