-- ===== src/Examples/Alarms.antt =====
-- The variants of the runner on the concrete machine.
use diy_ddmin.Base.{◌≡◌, refl, some, List, [], ◌∷◌, arith}
use diy_ddmin.Paths.{Bytes, codes}
use diy_ddmin.Machine.{World, done}
use diy_ddmin.Runner.{e_timeout_kill, RunnerErrorCode}
use diy_ddmin.FileRunner.{Exec, file_runner, run_child}
use diy_ddmin.FileRunner.Clock.{file_runner_reports}
use diy_ddmin.Examples.Lab.{lab, behave, program_path, desk}

-- 500 ticks are used in the `waitpid`, in which a second begins.
abbrev late : World
late = record (desk (codes "ax")) { ticks = 999_900 }

abbrev arguments : List Bytes
arguments = codes "--recover" ∷ codes "--postvalid" ∷ codes "in" ∷ []

abbrev quick : Exec
quick target args = some (λ files. behave)

file_runner_reports_example :
    (e : RunnerErrorCode) × (w : World) × (file_runner lab quick program_path arguments
        (codes "o")
        (codes "e")
        late
      ≡ done e w)
    × (e.exit_code ≡ 1)
    × (e.type ≡ e_timeout_kill)
unfolding run_child
file_runner_reports_example =
    file_runner_reports lab quick program_path arguments (codes "o") (codes "e") late refl 0 refl
      (omega arith) (omega arith)
