-- ===== src/Examples/Overflowing.antt =====
-- `ddmin` on an input of 4097 bytes, with a program under test that prints nothing.
use diy_ddmin.Base.{ℕ, zero, suc, ◌≡◌, refl, ap, false, some, [], arith, length}
use diy_ddmin.Paths.{Bytes, codes, bytes_eq}
use diy_ddmin.Machine.{Run, Host, fault, buffer_overflow, put}
use diy_ddmin.Machine.Healthy.{IsHealthy}
use diy_ddmin.Stdio.{zeros}
use diy_ddmin.Runner.{kill_child}
use diy_ddmin.Oracle.Search.{prints}
use diy_ddmin.Oracle.Verdict.{reproduces}
use diy_ddmin.Ddmin.{ddmin}
use diy_ddmin.Ddmin.Correct.{ddmin-overflows}
use diy_ddmin.Examples.Lab.{lab, program_path, input_path, message, desk, input_path-Fresh}

abbrev silent : Bytes → Run
silent c = record { ends = some 0; status = 0; out_at = λ _. []; err_at = λ _. [] }

abbrev quiet_lab : Host
quiet_lab = record lab { program = λ _. some (λ files. silent) }

quiet_lab-IsHealthy : IsHealthy quiet_lab program_path silent
quiet_lab-IsHealthy = record {
  forks = λ k. refl;
  creates = λ q. refl;
  executes = refl;
  idle = λ k. omega arith;
  exact = λ a b small h. refl;
}

silent-reproduces : (c : Bytes) → reproduces silent message c ≡ false
unfolding reproduces kill_child prints
silent-reproduces c = refl

length-zeros : (n : ℕ) → length (zeros n) ≡ n
unfolding zeros
length-zeros zero = refl
length-zeros (suc n) = ap suc (length-zeros n)

ddmin-overflows_example :
    ddmin quiet_lab program_path message 1 input_path (desk (zeros 4097)) ≡ fault buffer_overflow
unfolding put bytes_eq
ddmin-overflows_example =
    ddmin-overflows quiet_lab-IsHealthy message input_path (zeros 4097) (codes "elf")
      (desk (zeros 4097)) refl refl (omega arith) 0 (omega (arith, length-zeros 4097))
      (omega (arith, length-zeros 4097)) (input_path-Fresh 0) (omega arith) (silent-reproduces _)
      (silent-reproduces _)
