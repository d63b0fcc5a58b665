-- ===== src/Range/Threads/Rounds.antt =====
-- Where a round of `_range` begins.
use diy_ddmin.Base.{ℕ, zero, suc, ◌+◌, ◌≤◌, ◌<◌, ◌^◌, ◌≡◌, List, [], ◌∷◌, arith, length}
use diy_ddmin.Paths.{Bytes, FilePath}
use diy_ddmin.Machine.{Host}
use diy_ddmin.Range.Queue.Chain.{used}
use diy_ddmin.Range.Queue.Refine.{Holds}
use diy_ddmin.Range.Threads.{
  Worker, waiting, woken, holding, tested, placed, closing, freeing, pushing, System, start_size,
  thread_n,
}
use diy_ddmin.Range.Threads.Totals.{total, is_woken, is_busy, holds_at, is_at}
use diy_ddmin.Range.Threads.Invariant.{Inv, is_window, is_unpushed}

-- Nothing is going on: no job, no signal, and no busy thread.
pub record Quiet (s : System) : Type 0 where
  pub holds : Holds s.store []
  pub unsignalled : s.q_sem + total is_woken s.workers ≡ 0
  pub idle : total is_busy s.workers ≡ 0
  pub unended : s.terminated_sem ≡ 0
  pub closed : s.existing ≡ 0
  pub owned : (a : ℕ) → total (holds_at a) s.workers ≤ used (s.store.nodes a)
  pub small : s.input_size < 2 ^ 31
  pub all : length s.workers ≡ thread_n

pub is_at-le : (b : ℕ) (ws : List Worker) → total (is_at b) ws ≤ total is_busy ws
is_at-le b [] = omega arith
is_at-le b (waiting ∷ ws) = omega (arith, is_at-le b ws)
is_at-le b (woken ∷ ws) = omega (arith, is_at-le b ws)
is_at-le b (holding a job ∷ ws) = ground (arith, is_at-le b ws)
is_at-le b (tested a f ∷ ws) = omega (arith, is_at-le b ws)
is_at-le b (placed a k ∷ ws) = omega (arith, is_at-le b ws)
is_at-le b (closing a ∷ ws) = omega (arith, is_at-le b ws)
is_at-le b (freeing a ∷ ws) = omega (arith, is_at-le b ws)

all_unpushed : (rs n b : ℕ) → is_unpushed (pushing 0) rs n b ≡ is_window rs n b
all_unpushed rs n b = ground arith

module _ (host : Host) (program_path : FilePath) (msg : Bytes) where
  -- A round begins, or the search ends.
  pub start_size-Inv :
      (r : ℕ) (s : System) → Quiet s → r ≤ s.input_size → Inv (start_size host program_path msg r s)
  unfolding start_size
  start_size-Inv zero s q fits = record {
    cells = [];
    holds = q.holds;
    signalled = omega (arith, q.unsignalled);
    unfinished = omega (arith, q.closed, q.idle);
    ended = q.unended;
    over = q.closed;
    owned = λ a. omega (arith, q.owned a);
    once = tt;
    windows = omega (arith, q.closed);
    fits = tt;
    small = q.small;
    all = q.all;
  }
  start_size-Inv (suc r) s q fits = record {
    cells = [];
    holds = q.holds;
    signalled = omega (arith, q.unsignalled);
    unfinished = omega (arith, q.idle);
    ended = ground (arith, q.unended);
    over = tt;
    owned = λ a. omega (arith, q.owned a);
    once = λ b. omega (arith, all_unpushed (suc r) s.input_size b, is_at-le b s.workers, q.idle);
    windows = omega arith;
    fits = fits;
    small = q.small;
    all = q.all;
  }
