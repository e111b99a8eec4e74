-- ===== src/Deque.antt =====
-- libtask/locked_linked_deque.c: the queue of tasks of a scheduler, a linked list behind a node that
-- holds no task.
-- A node is an address, `none` is NULL, and `next` gives the field of that name for every node. Each
-- operation holds the lock from its first to its last access, so it is one step.
pub mod Laws
mod Tests
use koala_lang_pre.Prelude.{◌==◌, if◌then◌else◌, ℕ, ◌+◌, ◌-◌, Option, none, some}

pub record Deque : Type 0 where
  pub count : ℕ
  pub head : ℕ
  pub tail : ℕ

abbrev pub Links : Type 0
Links = ℕ → Option ℕ

-- `node->next = to`
abbrev pub link : Links → ℕ → Option ℕ → Links
link next node to a = if node == a then to else next a

-- `lldq_init` with the node that `calloc` hands out; `none` where the code returns -1.
unfoldable pub init : Option ℕ → Links → Option (Deque × Links)
init node next = elim node [
  | none ↦ none
  | some a ↦ some (record { count = 0; head = a; tail = a }, link next a none)
]

-- The two tests of `lldq_pop_head`, on the node behind the head; NULL is not the tail.
unfoldable pub pop_first : Deque → Links → Option ℕ → Deque × Links × Option ℕ
pop_first d next none = (d, next, none)
pop_first d next (some first) = (
  record d { count = d.count - 1; tail = if first == d.tail then d.head else d.tail },
  link (link next d.head (next first)) first none,
  some first,
)

-- `lldq_pop_head`
unfoldable pub pop_head : Deque → Links → Deque × Links × Option ℕ
pop_head d next = pop_first d next (next d.head)

-- `lldq_push_tail`
unfoldable pub push_tail : Deque → Links → ℕ → Deque × Links
push_tail d next node =
    (record d { count = d.count + 1; tail = node }, link next d.tail (some node))
