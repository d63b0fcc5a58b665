-- ===== src/Range/Threads/Contents.antt =====
-- What is in the files of `range` in every state: the input, and the inputs of one window less that
-- were found to fail.
pub mod Each
pub mod Places
pub mod Transfer
pub mod Advance
pub mod Holding
pub mod Placing
pub mod WorkerMoves
pub mod Origins
pub mod Rounds
pub mod Choosing
pub mod CoordinatorMoves
pub mod Correct
pub mod Completion
use diy_ddmin.Base.{
  ℕ, zero, suc, ◌+◌, ◌≤◌, ◌<◌, ◌≡◌, ◌≢◌, refl, ◌⊎◌, Bool, true, false, none, some, List, [], ◌∷◌,
  ◌++◌, arith, length, if◌then◌else◌,
}
use diy_ddmin.Paths.{Bytes, FilePath}
use diy_ddmin.Machine.{World}
use diy_ddmin.Range.Increasing.Spec.{without}
use diy_ddmin.Range.Increasing.Minimal.{IsFound}
use diy_ddmin.Range.Threads.{
  Worker, waiting, woken, holding, tested, placed, closing, Coordinator, pushing, posting, awaiting,
  choosing, finished, System, origin_path, thread_n,
}
use diy_ddmin.Range.Threads.Totals.{total, one_if}
use diy_ddmin.Range.Threads.Names.{Foreign, out_name}

-- Something of each thread, whose number is `i` or more.
abbrev pub Each : (ℕ → Worker → Type 0) → ℕ → List Worker → Type 0
Each P i [] = Unit
Each P i (p ∷ ws) = P i p × Each P (i + 1) ws

-- A thread that has found the error, and has not counted it yet
abbrev pub is_hit : Worker → ℕ
is_hit (tested a true) = 1
is_hit _ = 0

-- A thread that is about to put its file in place `k` of `fail_arr`
abbrev pub is_placing : ℕ → Worker → ℕ
is_placing k (placed a j) = one_if j k
is_placing k _ = 0

-- What a state of `_range` is about, while it searches.
abbrev pub During : Coordinator → Type 0 → Type 0
During finished A = Unit
During _ A = A

module _ (fails : Bytes → Bool) where
  -- 1 for a window whose rest fails
  abbrev pub hit : Bytes → (rs b : ℕ) → ℕ
  hit text rs b = if fails (without b rs text) then 1 else 0

  -- No window of `rs` bytes can be removed.
  abbrev pub Firm : Bytes → ℕ → Type 0
  Firm text rs = (b : ℕ) → b + rs ≤ length text → fails (without b rs text) ≡ false

  module _ (text : Bytes) (s : System) where
    -- The file has the input without one of this round's windows, and fails.
    pub record Failing (p : FilePath) : Type 0 where
      pub begin : ℕ
      pub inside : begin + s.rs ≤ length text
      pub holds : s.world.files p ≡ some (without begin s.rs text)
      pub reproduces : fails (without begin s.rs text) ≡ true

    -- What a thread knows of its output file.
    abbrev pub Finds : ℕ → Worker → Type 0
    Finds i (tested a true) = Failing (out_name i (s.fail_stack i))
    Finds i (placed a k) = Failing (out_name i (s.fail_stack i))
    Finds i _ = Unit

    -- Place `k` of `fail_arr` names a former output file.
    pub record Listed (k : ℕ) : Type 0 where
      pub thread : ℕ
      pub few : thread < thread_n
      pub time : ℕ
      pub former : time < s.fail_stack thread
      pub named : s.fail_arr k ≡ out_name thread time
      pub failing : Failing (out_name thread time)

    -- One round of `_range`.
    pub record Round : Type 0 where
      pub positive : 1 ≤ s.rs
      pub origins : (i : ℕ) → i < thread_n → s.world.files (origin_path i) ≡ some text
      pub finds : Each Finds 0 s.workers
      pub listed : (k : ℕ) → k < s.fail_n → (1 ≤ total (is_placing k) s.workers) ⊎ Listed k
      pub counted : total (hit text s.rs) s.tried ≡ s.fail_n + total is_hit s.workers

    -- Behind the last round: no file is left of the copies, and no single byte can be removed.
    abbrev pub Ended : Coordinator → Type 0
    Ended finished =
        ((i : ℕ) → i < thread_n → s.world.files (origin_path i) ≡ none)
        × ((length text ≤ 1) ⊎ Firm text 1)
    Ended _ = Unit

  -- The search began in the input `c`.
  pub record Files (c : Bytes) (s : System) : Type 0 where
    pub text : Bytes
    pub sized : length text ≡ s.input_size
    pub found : IsFound fails c text
    pub current : s.world.files s.input_path ≡ some text
    pub foreign : Foreign s.input_path
    pub named : (i : ℕ) → s.out_files i ≡ out_name i (s.fail_stack i)
    pub round : During s.coordinator (Round text s)
    pub ended : Ended text s s.coordinator
