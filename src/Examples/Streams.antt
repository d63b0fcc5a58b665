-- ===== src/Examples/Streams.antt =====
-- The copying loops and the search in a text, on concrete bytes.
use diy_ddmin.Base.{
  ◌≡◌, refl, true, false, [], ◌∷◌, arith, ◌↔◌, ℕ, Bool, ◌==◌, ◌&&◌, if◌then◌else◌, Bool-cases, inl,
  inr, ==→ne,
}
use diy_ddmin.Paths.{Bytes, codes, bytes_eq, stdout_path, stderr_path}
use diy_ddmin.Machine.{World, done, out_of_fuel, put}
use diy_ddmin.Stdio.{InStream, contents, null_sink, copy_loop, copy_bytes}
use diy_ddmin.Stdio.Copying.{Copied, copy_bytes-Copied, copy_loop-diverges}
use diy_ddmin.Oracle.{test_buffer_overflow}
use diy_ddmin.Oracle.Search.{newline, prints, strstr}
use diy_ddmin.Oracle.Search.Infix.{IsInfix}
use diy_ddmin.Oracle.Search.Lines.{Lacks, prints_complete}
use diy_ddmin.Runner.{kill_child}
use diy_ddmin.Oracle.Verdict.{Tidy}
use diy_ddmin.Oracle.Verdict.Printing.{error_text, Tells, test_buffer_overflow-Tells}
use diy_ddmin.Examples.Lab.{lab, lab-IsHealthy, behave, program_path, input_path, message, desk}

abbrev pub at_start : InStream
at_start = record { path = input_path; off = 0; ahead = [] }

copy_bytes-Copied_example :
    Copied
      (copy_bytes lab at_start null_sink 3 (desk (codes "abcd")))
      at_start
      null_sink
      3
      (desk (codes "abcd"))
unfolding contents put bytes_eq
copy_bytes-Copied_example =
    copy_bytes-Copied lab (desk (codes "abcd")) at_start null_sink 3 (omega arith)

copy_loop-diverges_example :
    copy_loop lab 7 at_start null_sink 5 (desk (codes "abcd")) ≡ out_of_fuel
unfolding contents put bytes_eq
copy_loop-diverges_example =
    copy_loop-diverges lab (desk (codes "abcd")) 7 at_start null_sink 5 (omega arith)

abbrev pub differ : ℕ → Bytes → Bool
differ b [] = true
differ b (c ∷ s) = (if c == b then false else true) && differ b s

pub lacks : (b : ℕ) (s : Bytes) → differ b s ≡ true → Lacks b s
lacks b [] h = tt
lacks b (c ∷ s) h = elim (Bool-cases (c == b)) [
  | inl e ↦ let f : false ≡ true = rw e at h in cc
  | inr e ↦ (==→ne c b e, lacks b s (rw e at h))
]

prints_complete_example :
    (prints message (codes "no\nan oops\n") ≡ true) ↔ IsInfix message (codes "no\nan oops\n")
prints_complete_example =
    prints_complete message (codes "no\nan oops\n") (λ e. cc) (lacks newline message refl)
      (lacks 0 (codes "no\nan oops\n") refl) tt

test_buffer_overflow-Tells_example :
    (answer : ℕ) × (w : World) × (test_buffer_overflow lab program_path input_path message
        (desk (codes "axd"))
      ≡ done answer w)
    × Tells answer message (error_text (behave (codes "axd")))
    × Tidy (stdout_path input_path) (stderr_path input_path) (desk (codes "axd")) w
unfolding put bytes_eq kill_child strstr
test_buffer_overflow-Tells_example =
    test_buffer_overflow-Tells (lab-IsHealthy program_path) input_path (codes "axd") message
      (λ e. cc) (lacks newline message refl) (lacks 0 (error_text (behave (codes "axd"))) refl) tt
      (desk (codes "axd")) (omega arith) refl
