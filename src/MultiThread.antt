-- ===== src/MultiThread.antt =====
-- src/example/multi-thread: threads that draw the windows of one size from a counter. What the three
-- programs there share; non/main.c has nothing to do for a window.
pub mod Drawn
pub mod Tickets
pub mod Cutting
pub mod Restarting
use diy_ddmin.Base.{
  ℕ, zero, suc, ◌+◌, ◌≡◌, Option, none, some, List, [], ◌∷◌, ◌++◌, ltb, leb, if◌then◌else◌, length,
}
use diy_ddmin.Range.Threads.Totals.{total}

-- Where a thread of `thread_func` is in its loop.
pub data Place : Type 0 where
  drawing : Place  -- in front of `pthread_mutex_lock(&begin_mt)`
  drawn : ℕ → Place  -- behind the unlock, with `start`
  gone : Place  -- it has returned

-- The globals of one round of `thread`, the rest of the program's state, and the threads. `tried` is no
-- variable of the program: it lists where the windows of this round began that were worked on so
-- far.
pub record Round (A : Type 0) : Type 0 where
  pub state : A
  pub begin : ℕ
  pub cur_rs : ℕ
  pub ip_size : ℕ
  pub threads : List Place
  pub tried : List ℕ

pub data Move (A : Type 0) : Type 0 where
  moved : Place → Round A → Move A
  joinable : Move A  -- the thread has returned
  stopped : Move A  -- the whole program has ended

abbrev pub all_drawing : ℕ → List Place
all_drawing zero = []
all_drawing (suc k) = drawing ∷ all_drawing k

-- The body of `while (rs > 0)` in `thread`, up to the `pthread_join`s
unfoldable pub start_round : {A : Type 0} → (thread_n input_size rs : ℕ) → A → Round A
start_round thread_n input_size rs a = record {
  state = a;
  begin = 0;
  cur_rs = rs;
  ip_size = input_size;
  threads = all_drawing thread_n;
  tried = [];
}

-- What is done for a window, by the thread's index, the window's start and size, and the input's
-- size; none where that ends the program
abbrev pub Work : Type 0 → Type 0
Work A = (th_idx start rs input_size : ℕ) → A → Option A

-- One move of a thread, in `thread_func`. The test `start > ip_size - cur_rs` is on signed numbers.
unfoldable pub thread_move : {A : Type 0} → Work A → (th_idx : ℕ) → Place → Round A → Move A
thread_move work th_idx drawing s = moved (drawn s.begin) (record s { begin = s.begin + 1 })
thread_move {A} work th_idx (drawn start) s =
    let worked : Move A = elim (work th_idx start s.cur_rs s.ip_size s.state) [
      | some a ↦ moved drawing (record s { state = a; tried = start ∷ s.tried })
      | none ↦ stopped
    ] in
    if ltb s.ip_size (start + s.cur_rs) then moved gone s else worked
thread_move work th_idx gone s = joinable

abbrev pub is_gone : Place → ℕ
is_gone gone = 1
is_gone _ = 0

module _ {A : Type 0} (work : Work A) (thread_n : ℕ) where
  -- `thread`: its threads move in any order; when all are joined the next round begins.
  pub data Step : Round A → Round A → Type 0 where
    by_thread :
        {s s' : Round A} (before : List Place) (p p' : Place) (after : List Place)
        → s.threads ≡ before ++ (p ∷ after)
        → thread_move work (length before + 1) p s ≡ moved p' s'
        → Step s (record s' { threads = before ++ (p' ∷ after) })
    joined :
        {s : Round A} {rs : ℕ}
        → total is_gone s.threads ≡ thread_n
        → s.cur_rs ≡ suc (suc rs)
        → Step s (start_round thread_n s.ip_size (suc rs) s.state)

  -- A state that `thread(input_size, rs)` can come to
  pub data Reachable (input_size rs : ℕ) (a : A) : Round A → Type 0 where
    starts : Reachable input_size rs a (start_round thread_n input_size rs a)
    goes_on :
        {s s' : Round A} → Reachable input_size rs a s → Step s s' → Reachable input_size rs a s'

-- `for (begin = 0; begin <= input_size - rs; begin++)` in `no_thread` of non/main.c, with its `i`.
unfoldable pub count_loop : (fuel begin rs input_size i : ℕ) → ℕ
count_loop zero begin rs input_size i = i
count_loop (suc fuel) begin rs input_size i =
    let counted = count_loop fuel (begin + 1) rs input_size (i + 1) in
    if leb (begin + rs) input_size then counted else i

-- `no_thread` of non/main.c: the `i` of each of its rounds, from the largest windows to the smallest.
unfoldable pub no_thread : (rs input_size : ℕ) → List ℕ
unfolding count_loop
no_thread zero input_size = []
no_thread (suc rs) input_size =
    count_loop (input_size + 1) 0 (suc rs) input_size 0 ∷ no_thread rs input_size
