-- ===== src/Range/Threads/WorkerMoves.antt =====
-- A move of a thread of `test_range` keeps the invariant.
pub mod Plain
pub mod Jobs
use diy_ddmin.Base.{
  pred-cases, ℕ, ◌+◌, ◌≤◌, ◌≡◌, refl, ap, subst, Bool, true, false, none, List, [], ◌∷◌, ◌++◌, inl,
  inr, ◌==◌, arith, length, length-append, Bool-cases,
}
use diy_ddmin.Paths.{Bytes, FilePath}
use diy_ddmin.Machine.{Host, World, done, exited, fault, out_of_fuel}
use diy_ddmin.Range.Queue.{Job, set_node}
use diy_ddmin.Range.Queue.Chain.{Cell, Absent, Chain-set, used, set_node-used}
use diy_ddmin.Range.Queue.Refine.{Holds, pop_queue-Holds}
use diy_ddmin.Range.Threads.{
  Worker, waiting, woken, holding, tested, placed, closing, freeing, System, Move, moved, blocked,
  stopped, worker_move, run_job, origin_path,
}
use diy_ddmin.Range.Threads.Totals.{
  total, total_swap, total_member, one_if, is_woken, is_busy, holds_at, is_at, cell_at, begins_at,
  one_if_refl, total-Absent,
}
use diy_ddmin.Range.Threads.Invariant.{Inv, Once-same, count}
use diy_ddmin.Range.Threads.Signals.{signals-next, Over-next, same_one, used-le}
use diy_ddmin.Range.Threads.WorkerMoves.Plain.{Kept, Here, plain}
use diy_ddmin.Range.Threads.WorkerMoves.Jobs.{woken-Kept, closing-Kept, freeing-Kept}

module _ (host : Host) (program_path : FilePath) (msg : Bytes) (before after : List Worker)
    (s : System) (inv : Inv s) where
  abbrev Moves : Worker → Type 0
  Moves p =
      Here before after s inv p
      → Kept before after (worker_move host program_path msg (length before) p s)

  waiting-Kept : Moves waiting
  unfolding worker_move
  waiting-Kept e = elim (pred-cases s.q_sem) [
    | inl z ↦ rw z tt
    | inr (k, z) ↦ rw z (
        plain before after s inv waiting woken s.world k s.fail_n s.fail_max s.fail_arr s.fail_stack
          s.out_files s.tried e (omega (arith, z)) refl (λ k. refl) (λ b. refl))
  ]

  holding-Kept : (a : ℕ) (job : Job) → Moves (holding a job)
  unfolding worker_move
  holding-Kept a job e =
      elim (run_job host program_path (origin_path (length before)) (s.out_files (length before))
          msg (length before) s.rs s.input_size job s.world)
        as (λ r. Kept before after (elim r [
          | done failed w ↦
              moved (tested a failed) (record s { world = w; tried = job.begin ∷ s.tried })
          | exited c w ↦ stopped (exited c w)
          | fault f ↦ stopped (fault f)
          | out_of_fuel ↦ stopped out_of_fuel
        ])) [
          | done failed w ↦
              plain before after s inv (holding a job) (tested a failed) w s.q_sem s.fail_n
                s.fail_max s.fail_arr s.fail_stack s.out_files (job.begin ∷ s.tried) e refl refl
                (λ k. refl) (λ b. omega arith)
          | exited c w ↦ tt
          | fault f ↦ tt
          | out_of_fuel ↦ tt
        ]

  tested-Kept : (a : ℕ) (failed : Bool) → Moves (tested a failed)
  unfolding worker_move
  tested-Kept a false e =
      plain before after s inv (tested a false) (closing a) s.world s.q_sem s.fail_n s.fail_max
        s.fail_arr s.fail_stack s.out_files s.tried e refl refl (λ k. refl) (λ b. refl)
  tested-Kept a true e =
      plain before after s inv (tested a true) (placed a s.fail_n) s.world s.q_sem (s.fail_n + 1)
        s.fail_max s.fail_arr s.fail_stack s.out_files s.tried e refl refl (λ k. refl) (λ b. refl)

  placed-Kept : (a fail_idx : ℕ) → Moves (placed a fail_idx)
  unfolding worker_move
  placed-Kept a fail_idx e =
      plain before after s inv (placed a fail_idx) (closing a) s.world s.q_sem s.fail_n _ _ _ _
        s.tried e refl refl (λ k. refl) (λ b. refl)

module _ (host : Host) (program_path : FilePath) (msg : Bytes) (before after : List Worker) where
  -- A move of any thread from a state with the invariant leads to one.
  pub worker_move-Inv :
      (s : System) (p p' : Worker) (s' : System)
      → Inv s
      → s.workers ≡ before ++ (p ∷ after)
      → worker_move host program_path msg (length before) p s ≡ moved p' s'
      → Inv (record s' { workers = before ++ (p' ∷ after) })
  worker_move-Inv s p p' s' inv e run = subst (Kept before after) run (kept p e)
    where
      kept :
          (p : Worker)
          → s.workers ≡ before ++ (p ∷ after)
          → Kept before after (worker_move host program_path msg (length before) p s)
      kept waiting e = waiting-Kept host program_path msg before after s inv e
      kept woken e = woken-Kept host program_path msg before after s inv e
      kept (holding a job) e = holding-Kept host program_path msg before after s inv a job e
      kept (tested a failed) e = tested-Kept host program_path msg before after s inv a failed e
      kept (placed a k) e = placed-Kept host program_path msg before after s inv a k e
      kept (closing a) e = closing-Kept host program_path msg before after s inv a e
      kept (freeing a) e = freeing-Kept host program_path msg before after s inv a e
