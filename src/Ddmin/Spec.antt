-- ===== src/Ddmin/Spec.antt =====
-- What `ddmin` computes, on byte strings alone: the same search for a part or a complement that
-- still fails, with no file, stream or process.
pub mod Cuts
pub mod Reduced
use Prim.Native.Nat.{max}
use diy_ddmin.Base.{
  ℕ, zero, suc, ◌+◌, ◌-◌, ◌*◌, ◌/◌, Bool, Option, none, some, ◌++◌, min, ltb, leb, if◌then◌else◌,
  length, take, drop,
}
use diy_ddmin.Paths.{Bytes}

-- The quotient rounded up.
unfoldable pub part_size : ℕ → ℕ → ℕ
part_size a b = (a + (b - 1)) / b

module _ (fails : Bytes → Bool) where
  -- The first of `n` parts of `c` that fails.
  unfoldable pub first_part : ℕ → Bytes → Option Bytes
  first_part zero c = none
  first_part (suc n) c =
      let k = part_size (length c) (suc n) in
      if fails (take k c) then some (take k c) else first_part n (drop k c)

  -- The first failing complement of one of `n` parts of `c` from `start` on.
  unfoldable pub first_cut : ℕ → Bytes → ℕ → Option Bytes
  first_cut zero c start = none
  first_cut (suc n) c start =
      let end = start + part_size (length c - start) (suc n) in
      let cut = take start c ++ drop end c in
      let later = first_cut n c end in
      if fails cut then some cut else if ltb end (length c) then later else none

  unfoldable pub reduce : (fuel n : ℕ) → Bytes → Option Bytes
  reduce zero n c = none
  reduce (suc fuel) n c =
      let finer = reduce fuel (min (n * 2) (length c)) c in
      let rounds : Option Bytes = elim (first_part n c) [
        | some d ↦ reduce fuel 2 d
        | none ↦ elim (first_cut n c 0) [
          | some d ↦ reduce fuel (max (n - 1) 2) d
          | none ↦ if ltb n (length c) then finer else some c
        ]
      ] in
      if leb (length c) 1 then some c else rounds
