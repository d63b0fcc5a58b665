-- ===== src/Examples/Schedule.antt =====
-- A schedule of `range` on the concrete machine, with an input of two bytes: who moves next.
use diy_ddmin.Base.{
  Option-cases, ap, ℕ, zero, suc, ◌≡◌, refl, subst, Option, none, some, List, [], ◌∷◌, ◌++◌, inl,
  inr, length, if◌then◌else◌, ◌==◌,
}
use mathlib.Core.Option.{some-injective}
use diy_ddmin.Paths.{codes, bytes_eq}
use diy_ddmin.Machine.{World, put}
use diy_ddmin.Copy.{copy, copy_blocks}
use diy_ddmin.Stdio.{contents}
use diy_ddmin.Range.Queue.{Node, Store}
use diy_ddmin.Range.Threads.{
  Worker, System, Move, moved, blocked, stopped, first_system, worker_move, coordinator_move,
  start_range, first_round, copy_origins, origin_path, start_size,
}
use diy_ddmin.Range.Threads.Steps.{Step, by_worker, by_coordinator, Reachable, starts, goes_on}
use diy_ddmin.Examples.Lab.{lab, program_path, input_path, message, desk}

-- A heap of `k` addresses.
unfoldable pub first_free : ℕ → (ℕ → Option Node) → Option ℕ
first_free zero nodes = none
first_free (suc k) nodes = elim (nodes k) [ none ↦ some k | some n ↦ first_free k nodes ]

pub first_free-unused :
    (k : ℕ) (nodes : ℕ → Option Node) (a : ℕ) → first_free k nodes ≡ some a → nodes a ≡ none
unfolding first_free
first_free-unused zero nodes a h = cc
first_free-unused (suc k) nodes a h = elim (Option-cases (nodes k)) [
  | inl e ↦ subst (λ j. nodes j ≡ none) (some-injective k a (rw (first_free, e) at h)) e
  | inr (n, e) ↦ first_free-unused k nodes a (rw (first_free, e) at h)
]

abbrev pub empty_store : Store
empty_store = record { nodes = λ a. none; queue = record { count = 0; front = none; rear = none } }

abbrev pub two_bytes : World
two_bytes = desk (codes "ax")

-- One run: who moves next, a thread below 4, or `_range`.
abbrev pub LabReachable : System → Type 0
LabReachable s =
    Reachable lab program_path message (first_free 9) (λ k. 0) input_path two_bytes empty_store s

abbrev pub LabStep : System → System → Type 0
LabStep s s' = Step lab program_path message (first_free 9) (λ k. 0) s s'

abbrev pub Picked : List Worker → Type 0
Picked ws =
    (before : List Worker) × (p : Worker) × (after : List Worker) × (ws ≡ before ++ (p ∷ after))

unfoldable pub pick : (i : ℕ) (ws : List Worker) → Option (Picked ws)
pick i [] = none
pick zero (p ∷ ws) = some ([], p, ws, refl)
pick (suc i) (q ∷ ws) = elim (pick i ws) [
  | none ↦ none
  | some (before, p, after, e) ↦ some (q ∷ before, p, after, ap (λ l. q ∷ l) e)
]

abbrev pub Next : System → Type 0
Next s = Option ((s' : System) × LabStep s s')

unfoldable pub next_worker :
    (s : System) (before : List Worker) (p : Worker) (after : List Worker)
    → s.workers ≡ before ++ (p ∷ after)
    → (m : Move Worker) → worker_move lab program_path message (length before) p s ≡ m
    → Next s
next_worker s before p after e (moved p' s') run =
    some (record s' { workers = before ++ (p' ∷ after) }, by_worker before p p' after e run)
next_worker s before p after e blocked run = none
next_worker s before p after e (stopped o) run = none

unfoldable pub next_coordinator :
    (s : System) (m : Move (Unit {0}))
    → coordinator_move lab program_path message (first_free 9) (λ k. 0) s.coordinator s ≡ m
    → Next s
next_coordinator s (moved u s') run = some (s', by_coordinator run)
next_coordinator s blocked run = none
next_coordinator s (stopped o) run = none

unfoldable pub next : (i : ℕ) (s : System) → Next s
unfolding next_worker next_coordinator pick
next i s = if i == 4 then next_coordinator s _ refl else elim (pick i s.workers) [
  | none ↦ none
  | some (before, p, after, e) ↦ next_worker s before p after e _ refl
]

unfoldable pub run : List ℕ → (s : System) × LabReachable s → (s : System) × LabReachable s
unfolding next
run [] (s, r) = (s, r)
run (i ∷ is) (s, r) = elim (next i s) [
  | none ↦ (s, r)
  | some (s', step) ↦ run is (s', goes_on r step)
]

-- The state in which `range` has made its threads.
unfoldable pub from_move : Move (Unit {0}) → System
from_move (moved u s) = s
from_move blocked = first_system lab program_path message input_path 2 empty_store two_bytes
from_move (stopped o) = first_system lab program_path message input_path 2 empty_store two_bytes

abbrev pub start : System
start = from_move (start_range lab program_path message input_path two_bytes empty_store)

pub start-Reachable : LabReachable start
unfolding from_move start_range first_round copy_origins origin_path put bytes_eq copy copy_blocks
    contents start_size
start-Reachable = starts refl

-- Two windows are tested by two threads, one of which finds the error, and the end of the round is seen.
abbrev pub round_run : (s : System) × LabReachable s
round_run =
    run (4 ∷ 4 ∷ 0 ∷ 4 ∷ 4 ∷ 1 ∷ 4 ∷ 1 ∷ 0 ∷ 1 ∷ 0 ∷ 1 ∷ 0 ∷ 1 ∷ 0 ∷ 1 ∷ 4 ∷ [])
      (start, start-Reachable)

-- The input is replaced by the one byte that is left, and the search is over.
abbrev pub whole_run : (s : System) × LabReachable s
whole_run = run (4 ∷ []) round_run
