-- ===== src/Join.antt =====
-- The join protocol of libtask/task.c: `task_go_routine` of a task that ends, and one call of `task_join`
-- on it by another task, on two processors.
-- The places of each side name the accesses to memory that others see; an atomic exchange and a plain
-- access are one step each. `join_task` says that the field is set, to the joining task. The result of the
-- entry function is `value`; `calloc` clears every field. `queued` says that the joining task was
-- scheduled again. A side whose assertion fails stops at `asserted`.
-- The test of a task's state in `task_switch_to` and the save of its context are one step.
pub mod Invariant
pub mod Safety
mod Tests
use koala_lang_pre.Prelude.{if◌then◌else◌, set, ℕ, ◌≡◌, Bool, true, false, Option, none, some}

pub data JoinState : Type 0 where
  joinable wait_for_joiner wait_to_join detached : JoinState

pub data TaskState : Type 0 where
  running ready waiting done : TaskState

-- `running`: in the entry function. `stored`: `task->result` is written. `spinning`: the exchange found a
-- joining task. `taken`: its address is read. `readied`: its state is written. `resulted`: its result is
-- written. `woke`: it is scheduled. `alone`: the exchange found no joining task, or none may come.
pub data Finisher : Type 0 where
  entry stored spinning taken readied resulted woke alone asserted : Finisher

-- `calling`: before the exchange. `noted`: the exchange found the task not finished. `marked`: the own
-- state is written. `published`: `task->join_task` is written. `parked`: switched to another task.
-- `resumed`: running again. `returned`, `refused`: the call returned 0 or -1.
pub data Joiner : Type 0 where
  calling noted marked published parked resumed returned refused asserted : Joiner

pub record Shared : Type 0 where
  pub join_state : JoinState
  pub join_task : Bool
  pub result : Option ℕ
  pub state : TaskState
  pub joined : Option ℕ
  pub queued : Bool
  pub out : Option ℕ

pub record Protocol : Type 0 where
  pub finisher : Finisher
  pub joiner : Joiner
  pub shared : Shared

abbrev pub start : Protocol
start = record {
  finisher = entry;
  joiner = calling;
  shared = record {
    join_state = joinable;
    join_task = false;
    result = none;
    state = running;
    joined = none;
    queued = false;
    out = none;
  };
}

-- The exchange with `TASK_WAIT_FOR_JOINER`, and the test of what it returns.
unfoldable pub finish_exchange : JoinState → Bool → Finisher
finish_exchange detached set = alone
finish_exchange joinable true = Finisher.asserted
finish_exchange joinable false = alone
finish_exchange wait_to_join set = spinning
finish_exchange wait_for_joiner set = Finisher.asserted

-- A detached task skips the exchange.
unfoldable pub after_exchange : JoinState → JoinState
after_exchange detached = detached
after_exchange _ = wait_for_joiner

abbrev pub is_waiting : TaskState → Bool
is_waiting waiting = true
is_waiting _ = false

-- One access of `task_go_routine`; `none` at its end, and where it spins for `join_task`.
unfoldable pub finisher_step : ℕ → Protocol → Option Protocol
unfolding finish_exchange after_exchange
finisher_step value p =
    let s = p.shared in
    elim p.finisher [
      | entry ↦ some (record p { finisher = stored; shared = record s { result = some value } })
      | stored ↦ some (record p {
        finisher = finish_exchange s.join_state s.join_task;
        shared = record s { join_state = after_exchange s.join_state };
      })
      | spinning ↦
          if s.join_task
          then some (record p { finisher = taken; shared = record s { join_task = false } })
          else none
      | taken ↦
          if is_waiting s.state
          then some (record p { finisher = readied; shared = record s { state = ready } })
          else some (record p { finisher = Finisher.asserted })
      | readied ↦ some (record p { finisher = resulted; shared = record s { joined = some value } })
      | resulted ↦ some (record p { finisher = woke; shared = record s { queued = true } })
      | woke ↦ none
      | alone ↦ none
      | Finisher.asserted ↦ none
    ]

-- The exchange with `TASK_WAIT_TO_JOIN`, and the test of what it returns.
unfoldable pub join_exchange : Protocol → Protocol
join_exchange p =
    let s = p.shared in
    let s' = record s { join_state = wait_to_join } in
    elim s.join_state [
      | joinable ↦ record p { joiner = noted; shared = s' }
      | wait_for_joiner ↦ record p { joiner = returned; shared = record s' { out = s.result } }
      | wait_to_join ↦ record p { joiner = asserted; shared = s' }
      | detached ↦ record p { joiner = refused }
    ]

-- `task_switch_to` away from the joining task, by its state.
unfoldable pub switch_from : Protocol → Protocol
switch_from p = elim p.shared.state [
  | running ↦ record p {
    joiner = parked;
    shared = record p.shared { state = ready; queued = true };
  }
  | done ↦ record p { joiner = parked }
  | waiting ↦ record p { joiner = parked }
  | ready ↦ record p { joiner = asserted }
]

abbrev pub is_ready : TaskState → Bool
is_ready ready = true
is_ready _ = false

abbrev pub is_running : TaskState → Bool
is_running running = true
is_running _ = false

-- One access of `task_join`; `none` after it, and while the task is not scheduled again.
unfoldable pub joiner_step : Protocol → Option Protocol
unfolding join_exchange switch_from
joiner_step p =
    let s = p.shared in
    elim p.joiner [
      | calling ↦ some (join_exchange p)
      | noted ↦ some (record p { joiner = marked; shared = record s { state = waiting } })
      | marked ↦ some (record p { joiner = published; shared = record s { join_task = true } })
      | published ↦ some (switch_from p)
      | parked ↦
          if s.queued
          then if is_ready s.state
            then some (record p {
              joiner = resumed;
              shared = record s { state = running; queued = false };
            })
            else some (record p { joiner = asserted })
          else none
      | resumed ↦
          if is_running s.state
          then some (record p { joiner = returned; shared = record s { out = s.joined } })
          else some (record p { joiner = asserted })
      | returned ↦ none
      | refused ↦ none
      | asserted ↦ none
    ]

pub data Step (value : ℕ) : Protocol → Protocol → Type 0 where
  finish : {p q : Protocol} → finisher_step value p ≡ some q → Step value p q
  join : {p q : Protocol} → joiner_step p ≡ some q → Step value p q

-- The states that interleavings of the two sides lead to.
pub data Reaches (value : ℕ) : Protocol → Type 0 where
  begin : Reaches value start
  then_step : {p q : Protocol} → Reaches value p → Step value p q → Reaches value q
