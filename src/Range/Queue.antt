-- ===== src/Range/Queue.antt =====
-- The queue of src/range.c and include/range.h: a chain of nodes on the heap.
pub mod Chain
pub mod Refine
use diy_ddmin.Base.{ℕ, ◌+◌, ◌-◌, ◌%◌, ◌^◌, Bool, Option, none, some, ◌==◌, if◌then◌else◌}

-- One window: its size and where it begins.
pub record Job : Type 0 where
  pub rs : ℕ
  pub begin : ℕ

-- `struct node`; none is NULL.
pub record Node : Type 0 where
  pub job : Job
  pub next : Option ℕ

-- `struct queue_t`
pub record QueueT : Type 0 where
  pub count : ℕ
  pub front : Option ℕ
  pub rear : Option ℕ

-- The nodes by their addresses, and the queue.
pub record Store : Type 0 where
  pub nodes : ℕ → Option Node
  pub queue : QueueT

-- What a function of the queue does: it returns, it ends the program, or it follows a bad pointer.
pub data Result (A : Type 0) : Type 0 where
  ok : A → Store → Result A
  exits : Result A
  bad_pointer : Result A

unfoldable pub set_node : ℕ → Option Node → (ℕ → Option Node) → ℕ → Option Node
set_node a n nodes b = if a == b then n else nodes b

abbrev pub init_queue : Store → Store
init_queue s = record s { queue = record { count = 0; front = none; rear = none } }

-- `q->rear->next = node`
unfoldable pub link : Option ℕ → ℕ → (ℕ → Option Node) → Option (ℕ → Option Node)
link none a nodes = none
link (some r) a nodes = elim (nodes r) [
  | none ↦ none
  | some n ↦ some (set_node r (some (record n { next = some a })) nodes)
]

-- `malloc` gives the address `a`; `count` is an `unsigned int`.
unfoldable pub push_queue : (a : ℕ) → Job → Store → Result (Unit {0})
push_queue a job s =
    let q = s.queue in
    let nodes = set_node a (some (record { job = job; next = none })) s.nodes in
    let count = (q.count + 1) % 2 ^ 32 in
    if q.count == 0
    then ok tt
        (record { nodes = nodes; queue = record { count = count; front = some a; rear = some a } })
    else elim (link q.rear a nodes) [
      | none ↦ bad_pointer
      | some nodes' ↦
          ok tt (record { nodes = nodes'; queue = record q { count = count; rear = some a } })
    ]

-- The last node that is popped stays the `rear`.
unfoldable pub pop_queue : Store → Result ℕ
pop_queue s =
    let q = s.queue in
    if q.count == 0 then exits else elim q.front [
      | none ↦ bad_pointer
      | some a ↦ elim (s.nodes a) [
        | none ↦ bad_pointer
        | some n ↦ ok a (record s { queue = record q { count = q.count - 1; front = n.next } })
      ]
    ]

-- `free(n)` at the end of a round of `test_range`
abbrev pub free_node : ℕ → Store → Store
free_node a s = record s { nodes = set_node a none s.nodes }
