-- ===== src/Scheduler/Tests.antt =====
-- Three processors, the first without tasks.
use koala_lang_pre.Prelude.{length, ℕ, ◌≡◌, refl, List, [], ◌∷◌, arith}
use koala_lang_pre.Scheduler.{
  Scheduler, idle, init_scheduler, push, pop_queue, pop, take_in, schedule, sched_get_task,
  count_steal, steal_one, steal, balance_from, sched_load_balance,
}
use koala_lang_pre.Scheduler.Balance.{times_all, times_all-sched_load_balance}

program : Unit {0}
unfolding init_scheduler push pop_queue pop take_in schedule sched_get_task count_steal steal_one
    steal balance_from sched_load_balance
program = tt

abbrev of : List ℕ → Scheduler
of tasks = record { queue = tasks; steal_count = 0 }

abbrev three : List Scheduler
three = idle ∷ of (1 ∷ 2 ∷ 3 ∷ 4 ∷ []) ∷ of (5 ∷ []) ∷ []

balance_runs :
    sched_load_balance three 0
    ≡ record { queue = 1 ∷ 2 ∷ []; steal_count = 2 } ∷ of (3 ∷ 4 ∷ []) ∷ of (5 ∷ []) ∷ []
unfolding program
balance_runs = refl

times_all-sched_load_balance_example :
    (times_all 3 (sched_load_balance three 0) ≡ times_all 3 three)
    × (length (sched_load_balance three 0) ≡ length three)
times_all-sched_load_balance_example = times_all-sched_load_balance 3 0 three (omega arith)
