-- ===== src/Scheduler.antt =====
-- libtask/task_scheduler_locked.c: a queue of tasks for each processor, and the stealing between them.
-- A deque is the list of its tasks, which Deque relates to the linked nodes, and its field `count` is
-- the length of that list. A task is a number; its node is allocated once and granted. The functions
-- run one at a time here.
pub mod Balance
mod Tests
use koala_lang_pre.Prelude.{
  length, get_or, set, replicate, ℕ, zero, suc, ◌+◌, ◌-◌, ◌/◌, ◌%◌, Option, none, some, List, [],
  ◌∷◌, ◌++◌,
}

pub record Scheduler : Type 0 where
  pub queue : List ℕ
  pub steal_count : ℕ

abbrev pub idle : Scheduler
idle = record { queue = []; steal_count = 0 }

-- `task_schedulers[proc]`
abbrev pub get_scheduler : List Scheduler → ℕ → Scheduler
get_scheduler scheds proc = get_or scheds proc idle

-- `init_scheduler`
unfoldable pub init_scheduler : ℕ → List Scheduler
init_scheduler num_threads = replicate num_threads idle

-- `lldq_push_tail` on the deque of a processor.
unfoldable pub push : List Scheduler → ℕ → ℕ → List Scheduler
push scheds proc task =
    let s = get_scheduler scheds proc in set scheds proc (record s { queue = s.queue ++ task ∷ [] })

-- The queue of a processor without its first task.
unfoldable pub pop_queue : List Scheduler → ℕ → List ℕ → List Scheduler × Option ℕ
pop_queue scheds proc [] = (scheds, none)
pop_queue scheds proc (task ∷ rest) =
    (set scheds proc (record (get_scheduler scheds proc) { queue = rest }), some task)

-- `lldq_pop_head` on the deque of a processor.
unfoldable pub pop : List Scheduler → ℕ → List Scheduler × Option ℕ
unfolding pop_queue
pop scheds proc = pop_queue scheds proc (get_scheduler scheds proc).queue

unfoldable pub schedule : List Scheduler → ℕ → ℕ → List Scheduler
unfolding push
schedule scheds proc task = push scheds proc task

unfoldable pub sched_get_task : List Scheduler → ℕ → List Scheduler × Option ℕ
unfolding pop
sched_get_task scheds proc = pop scheds proc

-- `++sched_lldq->steal_count`
unfoldable pub count_steal : List Scheduler → ℕ → List Scheduler
count_steal scheds proc =
    let s = get_scheduler scheds proc in
    set scheds proc (record s { steal_count = s.steal_count + 1 })

-- `if (node)`: the task that was popped goes to the stealing processor.
unfoldable pub take_in : List Scheduler → ℕ → Option ℕ → List Scheduler
take_in scheds proc none = scheds
take_in scheds proc (some task) = count_steal (push scheds proc task) proc

-- One round of the inner loop of `sched_load_balance`.
unfoldable pub steal_one : List Scheduler → ℕ → ℕ → List Scheduler
steal_one scheds proc other = take_in (pop scheds other).0 proc (pop scheds other).1

-- The inner loop, with `num_steal` rounds.
unfoldable pub steal : ℕ → List Scheduler → ℕ → ℕ → List Scheduler
steal zero scheds proc other = scheds
steal (suc n) scheds proc other = steal n (steal_one scheds proc other) proc other

-- `(other_deque->count - count) / 2`, no round of the loop where the difference is below nought.
abbrev pub num_steal : List Scheduler → ℕ → ℕ → ℕ
num_steal scheds count other = (length (get_scheduler scheds other).queue - count) / 2

-- The outer loop from `i` on, with the rounds that are left.
unfoldable pub balance_from : ℕ → ℕ → ℕ → List Scheduler → ℕ → List Scheduler
balance_from zero i count scheds proc = scheds
balance_from (suc rounds) i count scheds proc =
    let other = (i + 1) % length scheds in
    balance_from rounds (i + 1) count (steal (num_steal scheds count other) scheds proc other) proc

unfoldable pub sched_load_balance : List Scheduler → ℕ → List Scheduler
sched_load_balance scheds proc =
    balance_from (length scheds - 1) proc (length (get_scheduler scheds proc).queue) scheds proc
