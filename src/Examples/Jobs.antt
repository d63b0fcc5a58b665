-- ===== src/Examples/Jobs.antt =====
-- One job of thread 1 on the concrete machine.
use diy_ddmin.Base.{ℕ, ap, ◌∷◌, ◌≡◌, refl, arith}
use diy_ddmin.Paths.{Bytes, codes, bytes_eq}
use diy_ddmin.Machine.{World, done, put}
use diy_ddmin.Oracle.{dummy_path, test_buffer_overflow_thread}
use diy_ddmin.Runner.{kill_child}
use diy_ddmin.Oracle.Search.{newline, strstr}
use diy_ddmin.Oracle.Verdict.{reproduces, Tidy}
use diy_ddmin.Oracle.Verdict.Printing.{error_text, Tells, test_buffer_overflow_thread-Tells}
use diy_ddmin.Examples.Streams.{lacks}
use diy_ddmin.Range.Increasing.Spec.{without}
use diy_ddmin.Range.Threads.{run_job, thread_path}
use diy_ddmin.Range.Threads.Jobs.{Tested, run_job-Tested}
use diy_ddmin.Examples.Lab.{lab, lab-IsHealthy, behave, program_path, input_path, message, desk}

test_buffer_overflow_thread-Tells_example :
    (answer : ℕ) × (w : World) × (test_buffer_overflow_thread lab program_path input_path message 1
        (desk (codes "axd"))
      ≡ done answer w)
    × Tells answer message (error_text (behave (codes "axd")))
    × Tidy (dummy_path 1 (codes ".stdout")) (dummy_path 1 (codes ".stderr")) (desk (codes "axd")) w
unfolding put bytes_eq kill_child strstr dummy_path
test_buffer_overflow_thread-Tells_example =
    test_buffer_overflow_thread-Tells (lab-IsHealthy program_path) input_path (codes "axd") message
      (λ e. cc) (lacks newline message refl) (lacks 0 (error_text (behave (codes "axd"))) refl) tt 1
      (desk (codes "axd")) (omega arith) (λ e. cc) refl

abbrev sixth : Bytes → ℕ
sixth (a ∷ b ∷ c ∷ d ∷ e ∷ f ∷ s) = f
sixth s = 0

run_job-Tested_example :
    (w : World) × (run_job lab program_path input_path
        (thread_path 1)
        message
        1
        2
        4
        (record { rs = 2; begin = 1 })
        (desk (codes "abxd"))
      ≡ done (reproduces behave message (without 1 2 (codes "abxd"))) w)
    × Tested 1 (thread_path 1) (without 1 2 (codes "abxd")) (desk (codes "abxd")) w
unfolding put bytes_eq dummy_path thread_path
run_job-Tested_example =
    run_job-Tested (lab-IsHealthy program_path) message 1 (omega arith) input_path (thread_path 1)
      (λ e. cc)
      (record {
        no_out = λ e. absurd (omega (arith, ap sixth e));
        no_err = λ e. absurd (omega (arith, ap sixth e));
      })
      2 (record { rs = 2; begin = 1 }) (codes "abxd") (desk (codes "abxd")) refl (omega arith)
