-- ===== src/Range/Threads/Contents/WorkerMoves.antt =====
-- A move of a thread of `test_range` keeps what holds of the files, and ends in no error.
use diy_ddmin.Base.{
  pred-cases, ℕ, ◌+◌, ◌≤◌, ◌≡◌, ◌≢◌, refl, sym, subst, Bool, true, false, List, ◌∷◌, ◌++◌, inl, inr,
  arith, length,
}
use diy_ddmin.Paths.{Bytes, FilePath}
use diy_ddmin.Machine.{Run, Host}
use diy_ddmin.Machine.Healthy.{IsHealthy}
use diy_ddmin.Oracle.Verdict.{reproduces}
use diy_ddmin.Range.Queue.{free_node}
use diy_ddmin.Range.Queue.Refine.{Holds, pop_queue-Holds}
use diy_ddmin.Range.Threads.{
  Worker, waiting, woken, holding, tested, placed, closing, freeing, finished, System, moved,
  worker_move,
}
use diy_ddmin.Range.Threads.Totals.{total, total_member, is_busy, is_woken}
use diy_ddmin.Range.Threads.Invariant.{Inv, Over}
use diy_ddmin.Range.Threads.WorkerMoves.Jobs.{woken-pops}
use diy_ddmin.Range.Threads.Contents.{Files, Round, During, Ended}
use diy_ddmin.Range.Threads.Contents.Places.{finished-cases}
use diy_ddmin.Range.Threads.Contents.Advance.{Kept, plain}
use diy_ddmin.Range.Threads.Contents.Holding.{holding-Kept}
use diy_ddmin.Range.Threads.Contents.Placing.{tested-Kept, placed-Kept}

-- A state in which the search is over has no open job.
finished-Inv :
    (s : System)
    → Inv s
    → s.coordinator ≡ finished
    → (s.q_sem ≡ 0) × (total is_woken s.workers ≡ 0) × (total is_busy s.workers ≡ 0)
finished-Inv s inv e =
    let over : s.existing ≡ 0 = subst (λ co. Over co s.existing) e inv.over in
    (
      omega (arith, inv.signalled, inv.unfinished, over),
      omega (arith, inv.signalled, inv.unfinished, over),
      omega (arith, inv.unfinished, over),
    )

module _ {host : Host} {program_path : FilePath} {behave : Bytes → Run}
    (healthy : IsHealthy host program_path behave) (msg : Bytes) (c : Bytes)
    (before after : List Worker) where
  abbrev fails : Bytes → Bool
  fails = reproduces behave msg

  -- A node that is freed behind the end of the search
  freeing-over :
      (s : System) (a : ℕ)
      → Files fails c s
      → s.coordinator ≡ finished
      → Kept fails c before after (moved waiting (record s { store = free_node a s.store }))
  freeing-over s a f over =
      let t = record s { store = free_node a s.store; workers = before ++ (waiting ∷ after) } in
      record {
        text = f.text;
        sized = f.sized;
        found = f.found;
        current = f.current;
        foreign = f.foreign;
        named = f.named;
        round = subst (λ co. During co (Round fails f.text t)) (sym over) tt;
        ended = subst (Ended fails f.text t) (sym over) (subst (Ended fails f.text s) over f.ended);
      }

  -- A move of any thread, from a state whose files are as they should be.
  pub worker_move-Files :
      (s : System) (p : Worker)
      → Inv s
      → Files fails c s
      → s.workers ≡ before ++ (p ∷ after)
      → Kept fails c before after (worker_move host program_path msg (length before) p s)
  unfolding worker_move
  worker_move-Files s p inv f e = kept p e
    where
      live :
          (p : Worker)
          → s.workers ≡ before ++ (p ∷ after)
          → 1 ≤ s.q_sem + is_woken p + is_busy p
          → s.coordinator ≢ finished
      live p e active over =
          let (no_signal, none_woken, idle) = finished-Inv s inv over in
          absurd (
            omega (
              arith,
              active,
              no_signal,
              none_woken,
              idle,
              total_member is_woken s.workers before p after e,
              total_member is_busy s.workers before p after e,
            ))

      kept :
          (p : Worker)
          → s.workers ≡ before ++ (p ∷ after)
          → Kept fails c before after (worker_move host program_path msg (length before) p s)
      kept waiting e = elim (pred-cases s.q_sem) [
        | inl z ↦ rw z tt
        | inr (k, z) ↦ rw z (
            plain fails c before after s inv f (live waiting e (omega (arith, z))) waiting woken
              s.store k s.terminated_sem s.existing e (λ m. refl) refl (λ t. tt))
      ]
      kept woken e =
          let (cell, cells, split) = woken-pops host program_path msg before after s inv e in
          let (store, n, popped, node, nodes, job, holds, freed) =
            pop_queue-Holds s.store cell cells (subst (Holds s.store) split inv.holds) in
          rw (worker_move, popped, node)
            (plain fails c before after s inv f (live woken e (omega arith)) woken
              (holding cell.at n.job) store s.q_sem s.terminated_sem s.existing e (λ m. refl) refl
              (λ t. tt))
      kept (holding a job) e =
          holding-Kept healthy msg c before after s inv f (live _ e (omega arith)) a job e
      kept (tested a true) e =
          tested-Kept healthy msg c before after s inv f (live _ e (omega arith)) a e
      kept (tested a false) e =
          plain fails c before after s inv f (live _ e (omega arith)) (tested a false) (closing a)
            s.store s.q_sem s.terminated_sem s.existing e (λ m. refl) refl (λ t. tt)
      kept (placed a k) e =
          placed-Kept healthy msg c before after s inv f (live _ e (omega arith)) a k e
      kept (closing a) e =
          plain fails c before after s inv f (live _ e (omega arith)) (closing a) (freeing a) _ _ _
            _ e (λ m. refl) refl (λ t. tt)
      kept (freeing a) e = elim (finished-cases s.coordinator) [
        | inl over ↦ freeing-over s a f over
        | inr going ↦
            plain fails c before after s inv f going (freeing a) waiting (free_node a s.store) _ _ _
              e (λ m. refl) refl (λ t. tt)
      ]
