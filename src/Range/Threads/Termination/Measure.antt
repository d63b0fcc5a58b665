-- ===== src/Range/Threads/Termination/Measure.antt =====
-- How much is left of a search of `range`.
use diy_ddmin.Base.{ℕ, ◌+◌, ◌*◌, ◌<◌, ◌≡◌}
use diy_ddmin.Range.Threads.{
  Worker, waiting, woken, holding, tested, placed, closing, freeing, Coordinator, pushing, posting,
  awaiting, choosing, finished, System,
}
use diy_ddmin.Range.Threads.Totals.{total}
use diy_ddmin.Range.Threads.Invariant.{unpushed}

-- How many moves a thread still has to make for its job
abbrev pub left_of : Worker → ℕ
left_of waiting = 0
left_of woken = 6
left_of (holding a job) = 5
left_of (tested a failed) = 4
left_of (placed a k) = 3
left_of (closing a) = 2
left_of (freeing a) = 1

-- How many moves are left of a round, for `_range` and for the windows it has still to push
abbrev pub left_of_round : Coordinator → (rs input_size : ℕ) → ℕ
left_of_round (pushing b) rs n = 9 * unpushed (pushing b) rs n + 3
left_of_round (posting b) rs n = 9 * unpushed (posting b) rs n + 11
left_of_round awaiting rs n = 2
left_of_round choosing rs n = 1
left_of_round finished rs n = 0

-- The size of the windows, 0 when the search is over
abbrev pub left_sizes : Coordinator → ℕ → ℕ
left_sizes finished rs = 0
left_sizes _ rs = rs

abbrev pub left_moves : System → ℕ
left_moves s = left_of_round s.coordinator s.rs s.input_size + 7 * s.q_sem + total left_of s.workers

-- The lexicographic order of the three numbers
pub data Less (s t : System) : Type 0 where
  shorter : s.input_size < t.input_size → Less s t
  smaller :
      s.input_size ≡ t.input_size
      → left_sizes s.coordinator s.rs < left_sizes t.coordinator t.rs
      → Less s t
  nearer :
      s.input_size ≡ t.input_size
      → left_sizes s.coordinator s.rs ≡ left_sizes t.coordinator t.rs
      → left_moves s < left_moves t
      → Less s t
