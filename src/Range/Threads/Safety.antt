-- ===== src/Range/Threads/Safety.antt =====
-- What holds of `range` in every order of moves.
use diy_ddmin.Base.{
  nil_of_length, ℕ, ◌-◌, ◌<◌, ◌^◌, ◌≡◌, refl, ap, subst, ◌∙◌, ◌⊎◌, inl, inr, Option, none, some,
  List, [], ◌∷◌, ◌++◌, arith, length,
}
use diy_ddmin.Paths.{Bytes, FilePath}
use diy_ddmin.Machine.{Host, World, Outcome, done, exited, fault, out_of_fuel}
use diy_ddmin.Range.Queue.{Job, Node, Store}
use diy_ddmin.Range.Queue.Refine.{init_queue-Holds}
use diy_ddmin.Range.Threads.{
  Worker, waiting, woken, holding, tested, placed, closing, freeing, choosing, finished, System,
  thread_n, Move, moved, blocked, stopped, worker_move, start_range, first_round, copy_origins,
}
use diy_ddmin.Range.Threads.Steps.{by_worker, by_coordinator, Reachable, starts, goes_on}
use diy_ddmin.Range.Threads.Totals.{total, total_member, one_if, is_woken, is_busy, begins_at}
use diy_ddmin.Range.Threads.Invariant.{Inv, Over, Once, count, is_window}
use diy_ddmin.Range.Threads.WorkerMoves.{worker_move-Inv}
use diy_ddmin.Range.Threads.WorkerMoves.Jobs.{woken-moves}
use diy_ddmin.Range.Threads.Rounds.{is_at-le, start_size-Inv}
use diy_ddmin.Range.Threads.CoordinatorMoves.{coordinator_move-Inv}

-- A thread that has no job and was not woken is in front of `sem_wait`, or is about to free its node.
at_rest :
    (p : Worker) → is_busy p ≡ 0 → is_woken p ≡ 0 → (p ≡ waiting) ⊎ ((a : ℕ) × (p ≡ freeing a))
at_rest waiting idle asleep = inl refl
at_rest (freeing a) idle asleep = inr (a, refl)
at_rest woken idle asleep = absurd (omega (arith, asleep))
at_rest (holding a job) idle asleep = absurd (omega (arith, idle))
at_rest (tested a failed) idle asleep = absurd (omega (arith, idle))
at_rest (placed a k) idle asleep = absurd (omega (arith, idle))
at_rest (closing a) idle asleep = absurd (omega (arith, idle))

waiting-blocked :
    (host : Host) (program_path : FilePath) (msg : Bytes) (i : ℕ) (s : System)
    → s.q_sem ≡ 0
    → worker_move host program_path msg i waiting s ≡ blocked
unfolding worker_move
waiting-blocked host program_path msg i s e = rw e

module _ (host : Host) (program_path : FilePath) (msg : Bytes)
    (malloc : (ℕ → Option Node) → Option ℕ) (rand : ℕ → ℕ)
    (unused : (nodes : ℕ → Option Node) (a : ℕ) → malloc nodes ≡ some a → nodes a ≡ none)
    (path : FilePath) (w : World) (store : Store) where
  abbrev Starts : Move (Unit {0}) → Type 0
  Starts (moved u s) = Inv s
  Starts blocked = Unit
  Starts (stopped o) = Unit

  first_round-Inv :
      (size : ℕ) (r : Outcome (Unit {0}))
      → size < 2 ^ 31
      → Starts (first_round host program_path msg path size store r)
  unfolding first_round
  first_round-Inv size (done u w') small =
      start_size-Inv host program_path msg (size - 1) _
        (record {
          holds = init_queue-Holds store;
          unsignalled = refl;
          idle = refl;
          unended = refl;
          closed = refl;
          owned = λ a. omega arith;
          small = small;
          all = refl;
        })
        (omega arith)
  first_round-Inv size (exited c w') small = tt
  first_round-Inv size (fault f) small = tt
  first_round-Inv size out_of_fuel small = tt

  module _ (c : Bytes) (held : w.files path ≡ some c) (small : length c < 2 ^ 31) where
    start_range-Inv : Starts (start_range host program_path msg path w store)
    unfolding start_range
    start_range-Inv =
        rw (start_range, held)
          (first_round-Inv (length c) (copy_origins host program_path msg path w) small)

    abbrev pub Reached : System → Type 0
    Reached s = Reachable host program_path msg malloc rand path w store s

    pub Reachable-Inv : (s : System) → Reached s → Inv s
    Reachable-Inv s (starts run) = subst Starts run start_range-Inv
    Reachable-Inv s' (goes_on r (by_worker {s = s} {s' = t} before p p' after e run)) =
        worker_move-Inv host program_path msg before after s p p' t (Reachable-Inv s r) e run
    Reachable-Inv s' (goes_on r (by_coordinator {s = s} run)) =
        coordinator_move-Inv host program_path msg malloc rand unused s s' (Reachable-Inv s r) run

    -- Where `malloc` gives unused addresses or NULL, for an input of less than 2 ^ 31 bytes: in every
    -- reachable state in which `_range` has just waited for the end of a round, no thread has a job
    -- or was woken for one, none is queued, and each window of this round was tested exactly once.
    pub range_barrier :
        (s : System)
        → Reached s
        → s.coordinator ≡ choosing
        → (total is_busy s.workers ≡ 0)
          × (total is_woken s.workers ≡ 0)
          × (s.store.queue.count ≡ 0)
          × ((b : ℕ) → total (λ k. one_if k b) s.tried ≡ is_window s.rs s.input_size b)
    range_barrier s r e =
        let inv = Reachable-Inv s r in
        let over : s.existing ≡ 0 = subst (λ co. Over co s.existing) e inv.over in
        let empty : inv.cells ≡ [] =
          nil_of_length inv.cells (omega (arith, inv.unfinished, over)) in
        let idle : total is_busy s.workers ≡ 0 = omega (arith, inv.unfinished, over) in
        let once = subst (Once s.rs s.input_size (count s.tried s.workers inv.cells)) e inv.once in
        (
          idle,
          omega (arith, inv.signalled, ap length empty),
          inv.holds.counted ∙ ap length empty,
          λ b. omega (arith, once b, is_at-le b s.workers, idle, ap (total (begins_at b)) empty),
        )

    -- Where `malloc` gives unused addresses or NULL, for an input of less than 2 ^ 31 bytes: in every
    -- reachable state a thread that was woken pops a job, so that `pop_queue` never ends the program.
    pub range_pop :
        (s : System) (before after : List Worker)
        → Reached s
        → s.workers ≡ before ++ (woken ∷ after)
        → (a : ℕ) × (job : Job) × (s' : System) × (worker_move host program_path msg
              (length before)
              woken
              s
            ≡ moved (holding a job) s')
    range_pop s before after r e =
        woken-moves host program_path msg before after s (Reachable-Inv s r) e

    -- Where `malloc` gives unused addresses or NULL, for an input of less than 2 ^ 31 bytes: in every
    -- reachable state in which the search is over, with which `range` destroys `q_sem` and `end_mt`
    -- and frees the names of its files, none of the four threads has ended: each is in front of
    -- `sem_wait(&q_sem)`, or has still to unlock `end_mt` and to free its node. The queue is empty,
    -- and a thread in front of `sem_wait` can not move.
    pub range_left_waiting :
        (s : System)
        → Reached s
        → s.coordinator ≡ finished
        → (length s.workers ≡ thread_n)
          × ((before : List Worker) (p : Worker) (after : List Worker)
              → s.workers ≡ before ++ (p ∷ after)
              → (p ≡ waiting) ⊎ ((a : ℕ) × (p ≡ freeing a)))
          × (s.store.queue.count ≡ 0)
          × ((i : ℕ) → worker_move host program_path msg i waiting s ≡ blocked)
    range_left_waiting s r e =
        let inv = Reachable-Inv s r in
        let over : s.existing ≡ 0 = subst (λ co. Over co s.existing) e inv.over in
        let empty : inv.cells ≡ [] =
          nil_of_length inv.cells (omega (arith, inv.unfinished, over)) in
        let idle : total is_busy s.workers ≡ 0 = omega (arith, inv.unfinished, over) in
        let asleep : total is_woken s.workers ≡ 0 = omega (arith, inv.signalled, ap length empty) in
        (
          inv.all,
          λ before p after split.
              at_rest p (omega (arith, idle, total_member is_busy s.workers before p after split))
                (omega (arith, asleep, total_member is_woken s.workers before p after split)),
          inv.holds.counted ∙ ap length empty,
          λ i.
              waiting-blocked host program_path msg i s
                (omega (arith, inv.signalled, ap length empty)),
        )
