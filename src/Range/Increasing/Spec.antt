-- ===== src/Range/Increasing/Spec.antt =====
-- The search of `range_increasing` on byte strings alone.
use diy_ddmin.Base.{
  ℕ, zero, suc, ◌+◌, ◌-◌, Bool, Option, none, some, ◌++◌, leb, ltb, if◌then◌else◌, length, take,
  drop,
}
use diy_ddmin.Paths.{Bytes}

abbrev pub without : (begin rs : ℕ) → Bytes → Bytes
without begin rs c = take begin c ++ drop (begin + rs) c

module _ (fails : Bytes → Bool) where
  -- Where the search goes on: the next start, and the input.
  abbrev pub next_window : (rs begin : ℕ) → Bytes → ℕ × Bytes
  next_window rs begin c =
      if fails (without begin rs c) then ((begin + 1) - rs, without begin rs c) else (begin + 1, c)

  -- All windows of `rs` bytes from `begin` on.
  unfoldable pub sweep : (fuel rs begin : ℕ) → Bytes → Option Bytes
  sweep zero rs begin c = none
  sweep (suc fuel) rs begin c =
      let next = next_window rs begin c in
      let later = sweep fuel rs next.0 next.1 in
      if leb (begin + rs) (length c) then later else some c

  -- All windows of `rs` bytes or more.
  unfoldable pub widen : (limit fuel rs : ℕ) → Bytes → Option Bytes
  widen limit zero rs c = none
  widen limit (suc fuel) rs c =
      let swept : Option Bytes = elim (sweep limit rs 0 c) [
        | none ↦ none
        | some d ↦ widen limit fuel (rs + 1) d
      ] in
      if ltb rs (length c) then swept else some c
