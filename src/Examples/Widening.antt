-- ===== src/Examples/Widening.antt =====
-- `range_increasing` on the concrete machine.
use mathlib.Core.Logic.{∥∥₁_elim}
use mathlib.Core.Bool.{Bool-set}
use mathlib.Core.List.{Sublistᴰ}
use diy_ddmin.Base.{
  ◌≡◌, refl, sym, ◌∙◌, Option, none, some, arith, true, Bool-cases, inl, inr, ◌==◌,
}
use diy_ddmin.Paths.{Bytes, FilePath, codes, part_path, stdout_path, stderr_path, bytes_eq}
use diy_ddmin.Machine.{World, Outcome, done, put, into_array, byte_count_file}
use diy_ddmin.Runner.{kill_child, child, redirect, runner, get_error, timed_out}
use diy_ddmin.Oracle.{test_buffer_overflow, create_file, verdict, look_for, scan_file}
use diy_ddmin.Oracle.Search.{prints, strstr, starts_with}
use diy_ddmin.Oracle.Verdict.{reproduces}
use diy_ddmin.Stdio.{
  fopen_read, fopen_write, unchecked, fread, contents, fflush, truncate, write_at,
}
use diy_ddmin.Range.{read_and_write}
use diy_ddmin.Range.Increasing.{
  next_fail, commit_window, accept, reopen, open_files, test_window, begin_loop, rs_loop,
  range_increasing,
}
use diy_ddmin.Range.Increasing.Minimal.{IsFound, IsMonotone, IsMinimal}
use diy_ddmin.Range.Increasing.Correct.{range_increasing-reduces, range_increasing-IsMinimal}
use diy_ddmin.Examples.Lab.{
  lab, lab-IsHealthy, behave, program_path, input_path, message, desk, input_path-Fresh,
}

has_x-monotone :
    {a b : Bytes} → Sublistᴰ a b → strstr a (codes "x") ≡ true → strstr b (codes "x") ≡ true
unfolding strstr starts_with
has_x-monotone Sublistᴰ.slnil h = h
has_x-monotone (Sublistᴰ.cons {a} {l₂} s) h = elim (Bool-cases (120 == a)) [
  | inl e ↦ rw e refl
  | inr e ↦ rw e (has_x-monotone s h)
]
has_x-monotone (Sublistᴰ.cons-cons {a} {b = b} e s) h = elim (Bool-cases (120 == a)) [
  | inl f ↦ rw (sym e, f) refl
  | inr f ↦ rw (sym e, f) (has_x-monotone s (rw f at h))
]

reproduces-strstr : (c : Bytes) → reproduces behave message c ≡ strstr c (codes "x")
unfolding reproduces kill_child prints
reproduces-strstr c = elim (Bool-cases (strstr c (codes "x"))) [
  | inl e ↦ rw e refl
  | inr e ↦ rw e refl
]

behave-IsMonotone : IsMonotone (reproduces behave message)
behave-IsMonotone a b sub bad =
    ∥∥₁_elim sub (Bool-set _ _)
      (λ s. reproduces-strstr b ∙ has_x-monotone s (sym (reproduces-strstr a) ∙ bad))

range_increasing-reduces_example :
    (p' : FilePath) × (w' : World) × (r : Bytes) × (range_increasing lab program_path message 30
        input_path
        (desk (codes "abxd"))
      ≡ done p' w')
    × (w'.files p' ≡ some r)
    × IsFound (reproduces behave message) (codes "abxd") r
    × (w'.files input_path ≡ some (codes "abxd"))
unfolding put bytes_eq
range_increasing-reduces_example =
    range_increasing-reduces (lab-IsHealthy program_path) message 30 input_path (codes "abxd")
      (desk (codes "abxd")) refl (input_path-Fresh 1) (omega arith) (omega arith)

range_increasing-IsMinimal_example :
    (p' : FilePath) × (w' : World) × (r : Bytes) × (range_increasing lab program_path message 30
        input_path
        (desk (codes "abxd"))
      ≡ done p' w')
    × (w'.files p' ≡ some r)
    × IsMinimal (reproduces behave message) r
unfolding put bytes_eq
range_increasing-IsMinimal_example =
    range_increasing-IsMinimal (lab-IsHealthy program_path) message 30 input_path (codes "abxd")
      (desk (codes "abxd")) refl (input_path-Fresh 1) (omega arith) (omega arith) behave-IsMonotone
      (omega arith)

-- The file that `range_increasing` returns, by running the model of the code.
result : Outcome FilePath → Option Bytes
result (done p w) = w.files p
result _ = none

range_increasing_test :
    result (range_increasing lab program_path message 30 input_path (desk (codes "abxd")))
    ≡ some (codes "x")
unfolding result range_increasing open_files next_fail rs_loop begin_loop test_window accept reopen
    commit_window read_and_write put bytes_eq into_array byte_count_file fopen_read part_path
    fopen_write unchecked fread contents fflush test_buffer_overflow create_file verdict look_for
    scan_file prints stdout_path stderr_path child kill_child redirect runner get_error timed_out
    truncate write_at
range_increasing_test = refl
