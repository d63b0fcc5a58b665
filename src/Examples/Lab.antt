-- ===== src/Examples/Lab.antt =====
-- A concrete machine: the program under test prints a message if its input has the byte `x`.
use diy_ddmin.Base.{ℕ, ◌+◌, ◌-◌, ◌/◌, refl, true, none, some, [], arith, if◌then◌else◌}
use diy_ddmin.Paths.{Bytes, FilePath, codes, part_path, stdout_path, stderr_path}
use diy_ddmin.Machine.{Run, Host, World, put}
use diy_ddmin.Machine.Healthy.{IsHealthy}
use diy_ddmin.Oracle.Search.{strstr}
use diy_ddmin.Ddmin.Fresh.{Fresh}

abbrev pub behave : Bytes → Run
behave c = record {
  ends = some 0;
  status = 256;
  out_at = λ _. codes "hello";
  err_at = λ _. if strstr c (codes "x") then codes "oops\n" else [];
}

-- A program that prints the message and never ends.
abbrev pub hangs : Bytes → Run
hangs c = record { ends = none; status = 0; out_at = λ _. []; err_at = λ _. codes "oops\n" }

abbrev pub lab : Host
lab = record {
  read_ahead = λ n. 4096 - n;
  can_create = λ _. true;
  fork_ok = λ _. true;
  program = λ _. some (λ files. behave);
  terminal = [];
  wait_ticks = λ _. 500;
  ceil_quot = λ a b. (a + (b - 1)) / b;
}

pub lab-IsHealthy : (p : FilePath) → IsHealthy lab p behave
lab-IsHealthy p = record {
  forks = λ k. refl;
  creates = λ q. refl;
  executes = refl;
  idle = λ k. omega arith;
  exact = λ a b small h. refl;
}

abbrev pub program_path : FilePath
program_path = codes "prog"

abbrev pub input_path : FilePath
input_path = codes "in"

abbrev pub message : Bytes
message = codes "oops"

-- The program under test, and an input.
abbrev pub desk : Bytes → World
desk c = record {
  files = put input_path (some c) (put program_path (some (codes "elf")) (λ _. none));
  file_no = 0;
  fail_no = 0;
  forks = 0;
  ticks = 0;
}

pub input_path-Fresh : (k : ℕ) → Fresh k input_path
unfolding part_path stdout_path stderr_path
input_path-Fresh k = record {
  apart = λ j h. record { no_file = λ e. cc; no_out = λ e. cc; no_err = λ e. cc };
}
