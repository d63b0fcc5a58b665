-- ===== src/Ddmin/Skip.antt =====
-- The part that a complement leaves out is read into an array of 2048 bytes.
use native.Mathlib.Nat.{mul-le-mul_right, lt-mul-div-succ, div-lt_iff_lt-mul}
use diy_ddmin.Base.{
  ℕ, suc, ◌+◌, ◌-◌, ◌*◌, ◌/◌, ◌≤◌, ◌<◌, ◌≡◌, refl, ap, arith, leb, leb→le, leb→lt, Bool-cases, inl,
  inr, lt→ltb, le→ltb, eq→==, length, length-take,
}
use diy_ddmin.Machine.{Host, World, done, fault, buffer_overflow}
use diy_ddmin.Stdio.{InStream, fread}
use diy_ddmin.Stdio.Reading.{rest, fread-rest}
use diy_ddmin.Stdio.Copying.{IsAfter}
use diy_ddmin.Ddmin.{skip_part}
use diy_ddmin.Ddmin.Spec.{part_size}

module _ (host : Host) (s : InStream) (k : ℕ) (w : World) (there : k ≤ length (rest s w)) where
  length-read : length (fread host s k w).0 ≡ k
  length-read = omega (arith, ap length (fread-rest host s k w).0, length-take k (rest s w))

  pub skip_part-fits :
      k ≤ 2048 → (s' : InStream) × (skip_part host s k w ≡ done s' w) × IsAfter k s w s'
  unfolding skip_part
  skip_part-fits fits =
      let (_, left, same) = fread-rest host s k w in
      (
        (fread host s k w).1,
        rw (length-read, le→ltb 2048 k fits, eq→== k k refl),
        record { left = left; same_path = same },
      )

  -- A longer part is written past the end of the array.
  pub skip_part-overflows : 2048 < k → skip_part host s k w ≡ fault buffer_overflow
  unfolding skip_part
  skip_part-overflows long = rw (length-read, lt→ltb 2048 k long)

-- Parts of at most 2048 bytes each: what is left of the input fits that many arrays.
pub part_size-le-array : (a b : ℕ) → 0 < b → a ≤ 2048 * b → part_size a b ≤ 2048
unfolding part_size
part_size-le-array a b h fits =
    let lt : (a + (b - 1)) / b < 2049 = (div-lt_iff_lt-mul {k = b} h).1 (omega arith) in omega arith

pub part_size-covers : (a b : ℕ) → 0 < b → a ≤ part_size a b * b
unfolding part_size
part_size-covers a b h = omega (arith, lt-mul-div-succ (a + (b - 1)) {b = b} h)

pub part_size-rest_fits : (a b : ℕ) → a ≤ 2048 * suc b → a - part_size a (suc b) ≤ 2048 * b
part_size-rest_fits a b fits =
    rest_fits (part_size a (suc b)) (part_size-covers a (suc b) (omega arith))
  where
    rest_fits : (k : ℕ) → a ≤ k * suc b → a - k ≤ 2048 * b
    rest_fits k covers = elim (Bool-cases (leb k 2048)) [
      | inl low ↦ let few : k ≤ 2048 = leb→le k 2048 low in omega (arith, mul-le-mul_right b few)
      | inr high ↦ omega (arith, leb→lt k 2048 high)
    ]

-- Of two parts of more than two arrays the first is too long.
pub part_size-overflows : (a : ℕ) → 4096 < a → 2048 < part_size a 2
unfolding part_size
part_size-overflows a h = omega arith
