-- ===== src/MultiThread/Drawn.antt =====
-- What holds while the threads draw: each window is drawn once, and each thread draws one number
-- too many.
pub mod Moves
use diy_ddmin.Base.{
  Bool-cases, ltb→lt, ltb→le, ℕ, zero, suc, ◌+◌, ◌-◌, ◌≤◌, ◌<◌, ◌≡◌, refl, ap, subst, List, [], ◌∷◌,
  ◌++◌, inl, inr, arith, ltb, ◌==◌, if◌then◌else◌, length, length-append, Option, none, some, min,
}
use diy_ddmin.Range.Threads.Totals.{total, total_swap, total_member, one_if}
use diy_ddmin.Range.Threads.Invariant.{is_window}
use diy_ddmin.MultiThread.{
  Place, drawing, drawn, gone, Round, Move, moved, joinable, stopped, all_drawing, start_round,
  Work, thread_move, is_gone, by_thread, joined, Reachable, starts, goes_on,
}

abbrev pub is_holding : Place → ℕ
is_holding (drawn k) = 1
is_holding _ = 0

-- A thread that has drawn the window at `b`
abbrev pub has_drawn : (rs n b : ℕ) → Place → ℕ
has_drawn rs n b (drawn k) = if k == b then is_window rs n b else 0
has_drawn rs n b _ = 0

-- A thread that has drawn a window
abbrev pub has_window : (rs n : ℕ) → Place → ℕ
has_window rs n (drawn k) = is_window rs n k
has_window rs n _ = 0

-- A thread with a number that was not drawn yet
abbrev pub is_late : (begin : ℕ) → Place → ℕ
is_late begin (drawn k) = if ltb k begin then 0 else 1
is_late begin _ = 0

pub record Drawn {A : Type 0} (thread_n n : ℕ) (s : Round A) : Type 0 where
  pub once :
      (b : ℕ)
      → total (λ k. one_if k b) s.tried + total (has_drawn s.cur_rs s.ip_size b) s.threads
        ≡ (if ltb b s.begin then is_window s.cur_rs s.ip_size b else 0)
  pub worked :
      length s.tried + total (has_window s.cur_rs s.ip_size) s.threads
      ≡ min s.begin (s.ip_size + 1 - s.cur_rs)
  pub draws : s.begin ≡ length s.tried + total is_holding s.threads + total is_gone s.threads
  pub late : total (is_late s.begin) s.threads ≡ 0
  pub closed : 1 ≤ total is_gone s.threads → s.ip_size + 1 ≤ s.begin + s.cur_rs
  pub positive : 1 ≤ s.cur_rs
  pub fits : s.cur_rs ≤ s.ip_size
  pub size : s.ip_size ≡ n
  pub all : length s.threads ≡ thread_n

total_drawing : (f : Place → ℕ) (k : ℕ) → f drawing ≡ 0 → total f (all_drawing k) ≡ 0
total_drawing f zero h = refl
total_drawing f (suc k) h = omega (arith, h, total_drawing f k h)

length_drawing : (k : ℕ) → length (all_drawing k) ≡ k
length_drawing zero = refl
length_drawing (suc k) = omega (arith, length_drawing k)

pub is_late-suc :
    (begin : ℕ) (ps : List Place) → total (is_late (begin + 1)) ps ≤ total (is_late begin) ps
is_late-suc begin [] = omega arith
is_late-suc begin (drawing ∷ ps) = omega (arith, is_late-suc begin ps)
is_late-suc begin (drawn k ∷ ps) = ground (arith, is_late-suc begin ps)
is_late-suc begin (gone ∷ ps) = omega (arith, is_late-suc begin ps)

pub not_late : (k begin : ℕ) → is_late begin (drawn k) ≡ 0 → k < begin
not_late k begin h = ground arith

pub start_round-Drawn :
    {A : Type 0} (thread_n n rs : ℕ) (a : A)
    → 1 ≤ rs
    → rs ≤ n
    → Drawn thread_n n (start_round thread_n n rs a)
unfolding start_round
start_round-Drawn thread_n n rs a one fits =
    let none_of : (f : Place → ℕ) → f drawing ≡ 0 → total f (all_drawing thread_n) ≡ 0 =
      λ f h. total_drawing f thread_n h in
    record {
      once = λ b. ground (arith, none_of (has_drawn rs n b) refl);
      worked = omega (arith, none_of (has_window rs n) refl);
      draws = omega (arith, none_of is_holding refl, none_of is_gone refl);
      late = none_of (is_late 0) refl;
      closed = λ h. absurd (omega (arith, h, none_of is_gone refl));
      positive = one;
      fits = fits;
      size = refl;
      all = length_drawing thread_n;
    }
