-- ===== src/Range/Threads/Progress.antt =====
-- Some thread of `range` can move until the search is over, or the program is ended.
use diy_ddmin.Base.{
  Option-cases, leb→le, pred-cases, ℕ, ◌+◌, ◌-◌, ◌≤◌, ◌<◌, ◌^◌, ◌≡◌, ◌≢◌, refl, sym, ap, subst, ◌∙◌,
  Bool, true, false, Option, none, some, List, [], ◌∷◌, ◌++◌, ◌⊎◌, inl, inr, ◌==◌, arith, length,
  Bool-cases, leb,
}
use diy_ddmin.Paths.{Bytes, FilePath}
use diy_ddmin.Machine.{Host, World, Outcome, done, exited, fault, out_of_fuel}
use diy_ddmin.Range.Queue.{Job, Node, Store}
use diy_ddmin.Range.Queue.Refine.{push_queue-Holds}
use diy_ddmin.Range.Threads.{
  Worker, waiting, woken, holding, tested, placed, closing, freeing, Coordinator, pushing, posting,
  awaiting, choosing, finished, System, Move, moved, blocked, stopped, worker_move,
  coordinator_move, run_job, origin_path, restart, start_size,
}
use diy_ddmin.Range.Threads.Steps.{Step, by_worker, by_coordinator}
use diy_ddmin.Range.Threads.Totals.{total, one_if, is_woken, is_busy}
use diy_ddmin.Range.Threads.Invariant.{Inv, signals, unposted, unpushed}
use diy_ddmin.Range.Threads.Safety.{Reached, Reachable-Inv}
use diy_ddmin.Range.Threads.WorkerMoves.Jobs.{woken-moves}

-- A thread is in a place that counts.
find :
    (f : Worker → ℕ) (ws : List Worker)
    → 1 ≤ total f ws
    → (before : List Worker) × (p : Worker) × (after : List Worker) × (ws ≡ before ++ (p ∷ after))
      × (1 ≤ f p)
find f [] h = absurd (omega arith)
find f (p ∷ ws) h = elim (pred-cases (f p)) [
  | inr (k, e) ↦ ([], p, ws, refl, omega (arith, e))
  | inl e ↦
      let (before, q, after, split, here) = find f ws (omega (arith, e)) in
      (p ∷ before, q, after, ap (λ l. p ∷ l) split, here)
]

-- What can happen in a state: a step, or a thread ends the program on an error of its files or for
-- lack of memory.
pub data Alive (host : Host) (program_path : FilePath) (msg : Bytes)
    (malloc : (ℕ → Option Node) → Option ℕ) (rand : ℕ → ℕ) (s : System) : Type 0 where
  steps :
      {s' : System}
      → Step host program_path msg malloc rand s s'
      → Alive host program_path msg malloc rand s
  job_stops :
      (before after : List Worker) (a : ℕ) (job : Job)
      → s.workers ≡ before ++ (holding a job ∷ after)
      → (o : Outcome FilePath)
      → worker_move host program_path msg (length before) (holding a job) s ≡ stopped o
      → Alive host program_path msg malloc rand s
  no_memory :
      (b : ℕ)
      → s.coordinator ≡ pushing b
      → b + s.rs ≤ s.input_size
      → malloc s.store.nodes ≡ none
      → Alive host program_path msg malloc rand s
  restart_stops :
      s.coordinator ≡ choosing
      → (o : Outcome FilePath)
      → coordinator_move host program_path msg malloc rand choosing s ≡ stopped o
      → Alive host program_path msg malloc rand s

still_open : (existing : ℕ) → 0 ≡ one_if existing 0 → 1 ≤ existing
still_open existing h = ground arith

-- With no thread active, each is waiting or has only to free its node.
first_waiting :
    (ws : List Worker)
    → 1 ≤ length ws
    → total (λ p. is_woken p + is_busy p) ws ≡ 0
    → (after : List Worker) × ((ws ≡ waiting ∷ after) ⊎ ((a : ℕ) × (ws ≡ freeing a ∷ after)))
first_waiting [] h none_active = absurd (omega arith)
first_waiting (waiting ∷ ws) h none_active = (ws, inl refl)
first_waiting (woken ∷ ws) h none_active = absurd (omega arith)
first_waiting (holding a job ∷ ws) h none_active = absurd (omega arith)
first_waiting (tested a f ∷ ws) h none_active = absurd (omega arith)
first_waiting (placed a k ∷ ws) h none_active = absurd (omega arith)
first_waiting (closing a ∷ ws) h none_active = absurd (omega arith)
first_waiting (freeing a ∷ ws) h none_active = (ws, inr (a, refl))

total_sum :
    (ws : List Worker)
    → total (λ p. is_woken p + is_busy p) ws ≡ total is_woken ws + total is_busy ws
total_sum [] = refl
total_sum (p ∷ ws) = omega (arith, total_sum ws)

module _ (host : Host) (program_path : FilePath) (msg : Bytes)
    (malloc : (ℕ → Option Node) → Option ℕ) (rand : ℕ → ℕ)
    (unused : (nodes : ℕ → Option Node) (a : ℕ) → malloc nodes ≡ some a → nodes a ≡ none) where
  abbrev CanMove : System → Type 0
  CanMove s = Alive host program_path msg malloc rand s

  -- A thread that is not waiting can move.
  worker-alive :
      (s : System) (before : List Worker) (p : Worker) (after : List Worker)
      → Inv s
      → s.workers ≡ before ++ (p ∷ after)
      → 1 ≤ is_woken p + is_busy p
      → CanMove s
  unfolding worker_move
  worker-alive s before waiting after inv e h = absurd (omega arith)
  worker-alive s before woken after inv e h =
      let (a, job, s', run) = woken-moves host program_path msg before after s inv e in
      steps (by_worker before woken (holding a job) after e run)
  worker-alive s before (holding a job) after inv e h =
      job-alive
        (run_job host program_path (origin_path (length before)) (s.out_files (length before)) msg
          (length before) s.rs s.input_size job s.world)
        refl
    where
      job-alive :
          (r : Outcome Bool)
          → run_job host program_path
              (origin_path (length before))
              (s.out_files (length before))
              msg
              (length before)
              s.rs
              s.input_size
              job
              s.world
            ≡ r
          → CanMove s
      job-alive (done failed w) run = steps (
          by_worker {s' = record s { world = w; tried = job.begin ∷ s.tried }} before
            (holding a job) (tested a failed) after e (rw (worker_move, run) refl))
      job-alive (exited c w) run =
          job_stops before after a job e (exited c w) (rw (worker_move, run) refl)
      job-alive (fault f) run =
          job_stops before after a job e (fault f) (rw (worker_move, run) refl)
      job-alive out_of_fuel run =
          job_stops before after a job e out_of_fuel (rw (worker_move, run) refl)
  worker-alive s before (tested a false) after inv e h =
      steps (by_worker before (tested a false) (closing a) after e refl)
  worker-alive s before (tested a true) after inv e h =
      steps (by_worker before (tested a true) (placed a s.fail_n) after e refl)
  worker-alive s before (placed a k) after inv e h =
      steps (by_worker before (placed a k) (closing a) after e refl)
  worker-alive s before (closing a) after inv e h =
      steps (by_worker before (closing a) (freeing a) after e refl)
  worker-alive s before (freeing a) after inv e h = absurd (omega arith)

  restart-ne :
      (s : System) (k : ℕ) (r : Outcome (Unit {0})) → restart host program_path msg k s r ≢ blocked
  unfolding restart
  restart-ne s k (done u w) = λ h. cc
  restart-ne s k (exited c w) = λ h. cc
  restart-ne s k (fault f) = λ h. cc
  restart-ne s k out_of_fuel = λ h. cc

  restart-alive :
      (s : System)
      → s.coordinator ≡ choosing
      → (s.fail_n == 0) ≡ false
      → (r : Move (Unit {0})) → coordinator_move host program_path msg malloc rand choosing s ≡ r
      → r ≢ blocked
      → CanMove s
  restart-alive s e f (moved u s') run ne =
      steps {s' = s'} (
        by_coordinator (ap (λ co. coordinator_move host program_path msg malloc rand co s) e ∙ run))
  restart-alive s e f blocked run ne = absurd (ne refl)
  restart-alive s e f (stopped o) run ne = restart_stops e o run

  -- `_range` can move, or waits for a thread that can.
  coordinator-alive :
      (s : System) (co : Coordinator) → s.coordinator ≡ co → co ≢ finished → Inv s → CanMove s
  unfolding coordinator_move worker_move
  coordinator-alive s (pushing b) e ne inv = elim (Bool-cases (leb (b + s.rs) s.input_size)) [
    | inr over ↦
        steps {s' = record s { coordinator = awaiting }} (by_coordinator (rw (e, over) refl))
    | inl more ↦ elim (Option-cases (malloc s.store.nodes)) [
      | inl none_left ↦ no_memory b e (leb→le _ _ more) none_left
      | inr (a, given) ↦
          let (store, pushed, holds, same) =
            push_queue-Holds s.store inv.cells
              (record { at = a; job = record { rs = s.rs; begin = b } }) inv.holds
              (unused s.store.nodes a given)
              (omega (arith, inv.unfinished, inv.windows, inv.small)) in
          steps {s' = record s { store = store; coordinator = posting b }}
            (by_coordinator (rw (e, more, given, pushed) refl))
    ]
  ]
  coordinator-alive s (posting b) e ne inv =
      steps {s' = record s { q_sem = s.q_sem + 1; coordinator = pushing (b + 1) }}
        (by_coordinator (rw e refl))
  coordinator-alive s finished e ne inv = absurd (ne refl)
  coordinator-alive s choosing e ne inv = elim (Bool-cases (s.fail_n == 0)) [
    | inl z ↦
        steps {s' = start_size host program_path msg (s.rs - 1) s} (by_coordinator (rw (e, z) refl))
    | inr f ↦ restart-alive s e f _ refl (rw f (restart-ne s (s.total_fail_n + 1) _))
  ]
  coordinator-alive s awaiting e ne inv = elim (pred-cases s.terminated_sem) [
    | inr (k, z) ↦
        steps {s' = record s { terminated_sem = k; coordinator = choosing }}
          (by_coordinator (rw (e, z) refl))
    | inl z ↦
        let ended = subst (λ co. s.terminated_sem ≡ signals co s.existing) e inv.ended in
        let some_left : 1 ≤ s.existing = still_open s.existing (sym z ∙ ended) in
        let signalled =
          subst (λ co. s.q_sem + total is_woken s.workers + unposted co ≡ length inv.cells) e
            inv.signalled in
        let unfinished =
          subst
            (λ co.
              s.existing
              ≡ unpushed co s.rs s.input_size + length inv.cells + total is_busy s.workers)
            e inv.unfinished in
        elim (pred-cases (total (λ p. is_woken p + is_busy p) s.workers)) [
          | inr (k, active) ↦
              let (before, p, after, split, here) =
                find (λ p. is_woken p + is_busy p) s.workers (omega (arith, active)) in
              worker-alive s before p after inv split here
          | inl idle ↦
              let (after, place) = first_waiting s.workers (omega (arith, inv.all)) idle in
              let sum = total_sum s.workers in
              elim place [
                | inr (a, first) ↦ steps (by_worker [] (freeing a) waiting after first refl)
                | inl first ↦ elim (pred-cases s.q_sem) [
                  | inl q ↦ absurd (omega (arith, signalled, unfinished, some_left, sum, idle, q))
                  | inr (k, q) ↦ steps (
                      by_worker {s' = record s { q_sem = k }} [] waiting woken after first
                        (rw q refl))
                ]
              ]
        ]
  ]

  -- Where `malloc` gives unused addresses or NULL, for an input of less than 2 ^ 31 bytes: in every
  -- state that moves lead to before the end of the search some thread can move; or a job is next that
  -- ends the program or does not end; or the file that was chosen cannot be put in place; or there
  -- is no memory.
  pub range_progress :
      (path : FilePath) (w : World) (store : Store) (c : Bytes) (held : w.files path ≡ some c)
      (small : length c < 2 ^ 31) (s : System)
      → Reached host program_path msg malloc rand unused path w store c held small s
      → s.coordinator ≢ finished
      → CanMove s
  range_progress path w store c held small s r going =
      coordinator-alive s s.coordinator refl going
        (Reachable-Inv host program_path msg malloc rand unused path w store c held small s r)
