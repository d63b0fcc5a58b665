-- ===== src/Range/Threads/Signals.antt =====
-- The signals and the nodes, when a job of `range` is closed.
use diy_ddmin.Base.{
  ℕ, ◌+◌, ◌-◌, ◌≤◌, ◌≡◌, refl, true, Option, none, some, ◌==◌, if◌then◌else◌, arith,
}
use diy_ddmin.Range.Queue.{Node}
use diy_ddmin.Range.Queue.Chain.{used}
use diy_ddmin.Range.Threads.{Coordinator, pushing, posting, awaiting, choosing, finished}
use diy_ddmin.Range.Threads.Totals.{one_if}
use diy_ddmin.Range.Threads.Invariant.{signals, Over}

pub same_one : (a k : ℕ) → (a == k) ≡ true → one_if a k ≡ 1
same_one a k h = rw h refl

pub used-le : (n : Option Node) → used n ≤ 1
used-le none = omega arith
used-le (some n) = omega arith

-- The end of one more job is signalled if it is the last.
pub signals-next :
    (co : Coordinator) (k t : ℕ)
    → 1 ≤ k
    → Over co k
    → t ≡ signals co k
    → (if k - 1 == 0 then t + 1 else t) ≡ signals co (k - 1)
signals-next (pushing b) k t some_left over same = ground arith
signals-next (posting b) k t some_left over same = ground arith
signals-next awaiting k t some_left over same = ground arith
signals-next choosing k t some_left over same = absurd (omega arith)
signals-next finished k t some_left over same = absurd (omega arith)

pub Over-next : (co : Coordinator) (k : ℕ) → 1 ≤ k → Over co k → Over co (k - 1)
Over-next (pushing b) k some_left over = tt
Over-next (posting b) k some_left over = tt
Over-next awaiting k some_left over = tt
Over-next choosing k some_left over = absurd (omega arith)
Over-next finished k some_left over = absurd (omega arith)
