-- ===== src/Range/Threads/Termination/Moves.antt =====
-- Each move of a thread leaves less of the search.
use diy_ddmin.Base.{
  Option-cases, pred-cases, Bool-cases, leb, leb→le, ℕ, zero, suc, ◌+◌, ◌-◌, ◌≤◌, ◌<◌, ◌≡◌, refl,
  sym, ap, true, false, Option, none, some, List, ◌∷◌, ◌++◌, ◌⊎◌, inl, inr, arith, length, min,
  ◌==◌,
}
use diy_ddmin.Paths.{Bytes, FilePath}
use diy_ddmin.Machine.{Host, Outcome, done, exited, fault, wild_pointer, out_of_fuel}
use diy_ddmin.Range.Queue.{Node, Result, pop_queue, push_queue, ok, exits, bad_pointer}
use diy_ddmin.Range.Threads.{
  Worker, waiting, woken, holding, tested, placed, closing, freeing, Coordinator, pushing, posting,
  awaiting, choosing, finished, System, Move, moved, blocked, stopped, worker_move,
  coordinator_move, start_size, restart, run_job, origin_path,
}
use diy_ddmin.Range.Threads.Totals.{total, total_swap}
use diy_ddmin.Range.Threads.Invariant.{Fits}
use diy_ddmin.Range.Threads.Termination.Measure.{
  left_of, left_of_round, left_sizes, Less, shorter, smaller, nearer,
}

module _ (host : Host) (program_path : FilePath) (msg : Bytes) where
  module _ (before after : List Worker) (s : System) where
    -- What a move of the thread behind `before` leads to is less.
    abbrev pub Fewer : Move Worker → Type 0
    Fewer (moved p t) = Less (record t { workers = before ++ (p ∷ after) }) s
    Fewer blocked = Unit
    Fewer (stopped o) = Unit

    pub worker_move-Less :
        (p : Worker)
        → s.workers ≡ before ++ (p ∷ after)
        → Fewer (worker_move host program_path msg (length before) p s)
    unfolding worker_move
    worker_move-Less waiting e = elim (pred-cases s.q_sem) [
      | inl z ↦ rw z tt
      | inr (k, z) ↦ rw z (
          nearer refl refl
            (omega (arith, z, total_swap left_of s.workers before waiting woken after e)))
    ]
    worker_move-Less woken e =
        elim (pop_queue s.store)
          as (λ r. Fewer (elim r [
            | ok a store ↦ elim (store.nodes a) [
              | some n ↦ moved (holding a n.job) (record s { store = store })
              | none ↦ stopped (fault wild_pointer)
            ]
            | exits ↦ stopped (exited 1 s.world)
            | bad_pointer ↦ stopped (fault wild_pointer)
          ])) [
            | ok a store ↦
                elim (store.nodes a)
                  as (λ o. Fewer (elim o [
                    | some n ↦ moved (holding a n.job) (record s { store = store })
                    | none ↦ stopped (fault wild_pointer)
                  ])) [
                    | some n ↦ nearer refl refl (
                        omega (
                          arith,
                          total_swap left_of s.workers before woken (holding a n.job) after e,
                        ))
                    | none ↦ tt
                  ]
            | exits ↦ tt
            | bad_pointer ↦ tt
          ]
    worker_move-Less (holding a job) e =
        elim (run_job host program_path (origin_path (length before)) (s.out_files (length before))
            msg (length before) s.rs s.input_size job s.world)
          as (λ r. Fewer (elim r [
            | done failed w ↦
                moved (tested a failed) (record s { world = w; tried = job.begin ∷ s.tried })
            | exited c w ↦ stopped (exited c w)
            | fault f ↦ stopped (fault f)
            | out_of_fuel ↦ stopped out_of_fuel
          ])) [
            | done failed w ↦ nearer refl refl (
                omega (
                  arith,
                  total_swap left_of s.workers before (holding a job) (tested a failed) after e,
                ))
            | exited c w ↦ tt
            | fault f ↦ tt
            | out_of_fuel ↦ tt
          ]
    worker_move-Less (tested a false) e =
        nearer refl refl
          (omega (arith, total_swap left_of s.workers before (tested a false) (closing a) after e))
    worker_move-Less (tested a true) e = nearer refl refl (
        omega
          (arith, total_swap left_of s.workers before (tested a true) (placed a s.fail_n) after e))
    worker_move-Less (placed a k) e =
        nearer refl refl
          (omega (arith, total_swap left_of s.workers before (placed a k) (closing a) after e))
    worker_move-Less (closing a) e =
        nearer refl refl
          (omega (arith, total_swap left_of s.workers before (closing a) (freeing a) after e))
    worker_move-Less (freeing a) e =
        nearer refl refl
          (omega (arith, total_swap left_of s.workers before (freeing a) waiting after e))

  -- The next round is of a shorter input, or of shorter windows, or is none.
  start_size-Less :
      (r : ℕ) (t s : System)
      → s.coordinator ≡ choosing
      → (t.input_size < s.input_size) ⊎ ((t.input_size ≡ s.input_size) × (r ≤ s.rs - 1))
      → t.q_sem ≡ s.q_sem
      → t.workers ≡ s.workers
      → t.rs ≡ s.rs
      → Less (start_size host program_path msg r t) s
  unfolding start_size
  start_size-Less zero t s e (inl h) signal threads size = shorter h
  start_size-Less (suc r) t s e (inl h) signal threads size = shorter h
  start_size-Less zero t s e (inr h) signal threads size =
      let sizes : left_sizes s.coordinator s.rs ≡ s.rs = ap (λ co. left_sizes co s.rs) e in
      let moves = ap (λ co. left_of_round co s.rs s.input_size) e in
      elim (pred-cases s.rs) [
        | inl z ↦
            nearer h.0 (omega (arith, sizes, z))
              (omega (arith, moves, signal, ap (total left_of) threads))
        | inr (k, z) ↦ smaller h.0 (omega (arith, sizes, z))
      ]
  start_size-Less (suc r) t s e (inr h) signal threads size =
      let sizes : left_sizes s.coordinator s.rs ≡ s.rs = ap (λ co. left_sizes co s.rs) e in
      smaller h.0 (omega (arith, sizes, h.1))

  module _ (malloc : (ℕ → Option Node) → Option ℕ) (rand : ℕ → ℕ) (s : System) where
    abbrev pub After : Move (Unit {0}) → Type 0
    After (moved u t) = Less t s
    After blocked = Unit
    After (stopped o) = Unit

    restart-Less :
        (total_n : ℕ) (r : Outcome (Unit {0}))
        → s.coordinator ≡ choosing
        → s.rs ≤ s.input_size
        → After (restart host program_path msg total_n s r)
    unfolding restart
    restart-Less total_n (done u w) e fits =
        start_size-Less _ _ s e (next (pred-cases s.rs)) refl refl refl
      where
        next :
            (s.rs ≡ 0) ⊎ ((k : ℕ) × (s.rs ≡ suc k))
            → (s.input_size - s.rs < s.input_size)
              ⊎ ((s.input_size - s.rs ≡ s.input_size)
                  × (min s.rs (s.input_size - s.rs - 1) ≤ s.rs - 1))
        next (inl z) = inr (omega (arith, z), omega (arith, z))
        next (inr (k, z)) = inl (omega (arith, z, fits))
    restart-Less total_n (exited x w) e fits = tt
    restart-Less total_n (fault f) e fits = tt
    restart-Less total_n out_of_fuel e fits = tt

    pushed :
        (b : ℕ) (r : Result (Unit {0}))
        → s.coordinator ≡ pushing b
        → b + s.rs ≤ s.input_size
        → After (elim r [
          | ok u store ↦ moved tt (record s { store = store; coordinator = posting b })
          | exits ↦ stopped (exited 1 s.world)
          | bad_pointer ↦ stopped (fault wild_pointer)
        ])
    pushed b (ok u store) e inside =
        nearer refl (sym (ap (λ co. left_sizes co s.rs) e))
          (omega (arith, inside, ap (λ co. left_of_round co s.rs s.input_size) e))
    pushed b exits e inside = tt
    pushed b bad_pointer e inside = tt

    pub coordinator_move-Less :
        (co : Coordinator)
        → s.coordinator ≡ co
        → Fits co s.rs s.input_size
        → After (coordinator_move host program_path msg malloc rand co s)
    unfolding coordinator_move
    coordinator_move-Less (pushing b) e fits =
        let sizes = ap (λ co. left_sizes co s.rs) e in
        let moves = ap (λ co. left_of_round co s.rs s.input_size) e in
        elim (Bool-cases (leb (b + s.rs) s.input_size)) [
          | inr over ↦ rw over (nearer refl (sym sizes) (omega (arith, moves)))
          | inl more ↦ elim (Option-cases (malloc s.store.nodes)) [
            | inl empty ↦ rw (more, empty) tt
            | inr (a, given) ↦
                rw (more, given)
                  (pushed b (push_queue a (record { rs = s.rs; begin = b }) s.store) e
                    (leb→le _ _ more))
          ]
        ]
    coordinator_move-Less (posting b) e fits =
        nearer refl (sym (ap (λ co. left_sizes co s.rs) e))
          (omega (arith, ap (λ co. left_of_round co s.rs s.input_size) e))
    coordinator_move-Less awaiting e fits = elim (pred-cases s.terminated_sem) [
      | inl z ↦ rw z tt
      | inr (k, z) ↦ rw z (
          nearer refl (sym (ap (λ co. left_sizes co s.rs) e))
            (omega (arith, ap (λ co. left_of_round co s.rs s.input_size) e)))
    ]
    coordinator_move-Less choosing e fits = elim (Bool-cases (s.fail_n == 0)) [
      | inl z ↦ rw z (start_size-Less (s.rs - 1) s s e (inr (refl, omega arith)) refl refl refl)
      | inr some_found ↦ rw some_found (restart-Less _ _ e fits)
    ]
    coordinator_move-Less finished e fits = tt
