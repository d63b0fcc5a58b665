-- ===== src/Range/Threads/WorkerMoves/Plain.antt =====
-- A move of a thread that changes neither the queue nor the open jobs keeps the invariant.
use diy_ddmin.Base.{ℕ, ◌+◌, ◌≡◌, ap, List, ◌∷◌, ◌++◌, arith, length, length-append}
use diy_ddmin.Paths.{FilePath}
use diy_ddmin.Machine.{World}
use diy_ddmin.Range.Threads.{Worker, System, Move, moved, blocked, stopped}
use diy_ddmin.Range.Threads.Totals.{total, total_swap, one_if, is_woken, is_busy, holds_at, is_at}
use diy_ddmin.Range.Threads.Invariant.{Inv, Once-same, count}

module _ (before after : List Worker) where
  -- The invariant in the state that a move of the thread behind `before` leads to, if it leads to one.
  abbrev pub Kept : Move Worker → Type 0
  Kept (moved p' s') = Inv (record s' { workers = before ++ (p' ∷ after) })
  Kept blocked = Unit
  Kept (stopped o) = Unit

  module _ (s : System) (inv : Inv s) where
    -- The thread is in the place `p`.
    abbrev pub Here : Worker → Type 0
    Here p = s.workers ≡ before ++ (p ∷ after)

    swap :
        (f : Worker → ℕ) (p q : Worker)
        → Here p
        → total f (before ++ (q ∷ after)) + f p ≡ total f s.workers + f q
    swap f p q e = total_swap f s.workers before p q after e

    pub length_kept : (p q : Worker) → Here p → length (before ++ (q ∷ after)) ≡ 4
    length_kept p q e = omega (
      arith,
      inv.all,
      ap length e,
      length-append before (p ∷ after),
      length-append before (q ∷ after),
    )

    -- A move that changes neither the queue nor the open jobs.
    pub plain :
        (p p' : Worker) (w : World) (q_sem fail_n fail_max : ℕ) (fail_arr : ℕ → FilePath)
        (fail_stack : ℕ → ℕ) (out_files : ℕ → FilePath) (tried : List ℕ)
        → Here p
        → q_sem + is_woken p' ≡ s.q_sem + is_woken p
        → is_busy p ≡ is_busy p'
        → ((k : ℕ) → holds_at k p ≡ holds_at k p')
        → ((b : ℕ)
            → total (λ k. one_if k b) tried + is_at b p'
              ≡ total (λ k. one_if k b) s.tried + is_at b p)
        → Inv (record s {
          world = w;
          q_sem = q_sem;
          fail_n = fail_n;
          fail_max = fail_max;
          fail_arr = fail_arr;
          fail_stack = fail_stack;
          out_files = out_files;
          tried = tried;
          workers = before ++ (p' ∷ after);
        })
    plain p p' w q_sem fail_n fail_max fail_arr fail_stack out_files tried e woken_same busy_same
          holds_same windows_same =
        record {
          cells = inv.cells;
          holds = inv.holds;
          signalled = omega (arith, inv.signalled, woken_same, swap is_woken p p' e);
          unfinished = omega (arith, inv.unfinished, busy_same, swap is_busy p p' e);
          ended = inv.ended;
          over = inv.over;
          owned = λ k. omega (arith, inv.owned k, holds_same k, swap (holds_at k) p p' e);
          once =
              Once-same s.rs s.input_size (count s.tried s.workers inv.cells)
                (count tried (before ++ (p' ∷ after)) inv.cells) s.coordinator
                (λ b. omega (arith, windows_same b, swap (is_at b) p p' e)) inv.once;
          windows = inv.windows;
          fits = inv.fits;
          small = inv.small;
          all = length_kept p p' e;
        }
