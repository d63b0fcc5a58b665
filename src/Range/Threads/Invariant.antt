-- ===== src/Range/Threads/Invariant.antt =====
-- What holds in every state of `range`, in numbers: of windows, of nodes and of signals.
use diy_ddmin.Base.{ℕ, ◌+◌, ◌-◌, ◌≤◌, ◌<◌, ◌^◌, ◌≡◌, List, ltb, leb, if◌then◌else◌, length, arith}
use diy_ddmin.Range.Queue.Chain.{Cell, used}
use diy_ddmin.Range.Queue.Refine.{Holds}
use diy_ddmin.Range.Threads.{
  Worker, Coordinator, pushing, posting, awaiting, choosing, finished, System, thread_n,
}
use diy_ddmin.Range.Threads.Totals.{
  total, one_if, is_woken, is_busy, holds_at, is_at, cell_at, begins_at,
}

-- A job that is in the queue without its signal yet
abbrev pub unposted : Coordinator → ℕ
unposted (posting b) = 1
unposted _ = 0

-- How many windows are still to be pushed
abbrev pub unpushed : Coordinator → (rs input_size : ℕ) → ℕ
unpushed (pushing b) rs n = n + 1 - (b + rs)
unpushed (posting b) rs n = n + 1 - (b + 1 + rs)
unpushed _ rs n = 0

-- 1 where a window of this round begins
abbrev pub is_window : (rs input_size b : ℕ) → ℕ
is_window rs n b = if leb (b + rs) n then 1 else 0

-- 1 where a window begins that is still to be pushed
abbrev pub is_unpushed : Coordinator → (rs input_size b : ℕ) → ℕ
is_unpushed (pushing k) rs n b = if leb k b then is_window rs n b else 0
is_unpushed (posting k) rs n b = if ltb k b then is_window rs n b else 0
is_unpushed _ rs n b = 0

-- How often the end was signalled and not yet seen
abbrev pub signals : Coordinator → (existing : ℕ) → ℕ
signals choosing k = 0
signals finished k = 0
signals _ k = one_if k 0

-- How many windows a coordinator behind its `sem_wait` leaves open
abbrev pub Over : Coordinator → (existing : ℕ) → Type 0
Over choosing k = k ≡ 0
Over finished k = k ≡ 0
Over _ k = Unit

-- While windows are searched, they are not longer than the input.
abbrev pub Fits : Coordinator → (rs input_size : ℕ) → Type 0
Fits finished rs n = Unit
Fits _ rs n = rs ≤ n

-- How often each window is tested, is about to be (`count`), or will be pushed: once.
abbrev pub Once : (rs input_size : ℕ) → (count : ℕ → ℕ) → Coordinator → Type 0
Once rs n count finished = Unit
Once rs n count co = (b : ℕ) → count b + is_unpushed co rs n b ≡ is_window rs n b

pub Once-same :
    (rs n : ℕ) (f g : ℕ → ℕ) (co : Coordinator)
    → ((b : ℕ) → g b ≡ f b)
    → Once rs n f co
    → Once rs n g co
Once-same rs n f g finished same once = tt
Once-same rs n f g (pushing k) same once = λ b. omega (arith, same b, once b)
Once-same rs n f g (posting k) same once = λ b. omega (arith, same b, once b)
Once-same rs n f g awaiting same once = λ b. omega (arith, same b, once b)
Once-same rs n f g choosing same once = λ b. omega (arith, same b, once b)

-- The windows that begin at `b`: those tested, those about to be, and those in the queue.
abbrev pub count : List ℕ → List Worker → List Cell → ℕ → ℕ
count tried workers cells b =
    total (λ k. one_if k b) tried + total (is_at b) workers + total (begins_at b) cells

pub record Inv (s : System) : Type 0 where
  pub cells : List Cell
  pub holds : Holds s.store cells
  pub signalled : s.q_sem + total is_woken s.workers + unposted s.coordinator ≡ length cells
  pub unfinished :
      s.existing ≡ unpushed s.coordinator s.rs s.input_size + length cells + total is_busy s.workers
  pub ended : s.terminated_sem ≡ signals s.coordinator s.existing
  pub over : Over s.coordinator s.existing
  pub owned :
      (a : ℕ) → total (holds_at a) s.workers + total (cell_at a) cells ≤ used (s.store.nodes a)
  pub once : Once s.rs s.input_size (count s.tried s.workers cells) s.coordinator
  pub windows : s.existing ≤ s.input_size + 1
  pub fits : Fits s.coordinator s.rs s.input_size
  pub small : s.input_size < 2 ^ 31
  pub all : length s.workers ≡ thread_n
