-- ===== src/Runner/Shared/Alarms.antt =====
-- Which child an alarm kills, and which one a thread waits for.
use diy_ddmin.Base.{ℕ, ◌<◌, ◌≡◌, ◌≢◌, refl, eq→==, ne→==}
use diy_ddmin.Runner.Shared.{running, waits_for, Pool, replace}

pub replace-same : {A : Type 0} (i : ℕ) (a : A) (f : ℕ → A) → replace i a f i ≡ a
replace-same i a f = rw (eq→== i i refl) refl

pub replace-other : {A : Type 0} (i j : ℕ) (a : A) (f : ℕ → A) → i ≢ j → replace i a f j ≡ f j
replace-other i j a f ne = rw (ne→== i j ne) refl

-- The child `k` goes on, thread `i` waits for it, and the global names another child.
pub record Lost (i k : ℕ) (s : Pool) : Type 0 where
  pub old : k < s.next_pid
  pub overwritten : s.c_pid ≢ k
  pub goes_on : s.children k ≡ running
  pub own : ℕ
  pub waits : s.places i ≡ waits_for own k
