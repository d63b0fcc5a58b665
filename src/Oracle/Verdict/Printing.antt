-- ===== src/Oracle/Verdict/Printing.antt =====
-- What the two tests answer, by the whole text that the program under test prints.
use diy_ddmin.Base.{
  ℕ, ◌≤◌, ◌<◌, ◌^◌, ◌≡◌, ◌≢◌, refl, Bool, true, false, some, [], arith, ◌↔◌, if◌then◌else◌, length,
  Bool-cases, inl, inr,
}
use diy_ddmin.Paths.{codes, Bytes, FilePath, stdout_path, stderr_path}
use diy_ddmin.Machine.{Run, Host, World, done}
use diy_ddmin.Machine.Healthy.{IsHealthy}
use diy_ddmin.Runner.{kill_child}
use diy_ddmin.Oracle.{test_buffer_overflow, dummy_path, test_buffer_overflow_thread}
use diy_ddmin.Oracle.Search.{newline, prints}
use diy_ddmin.Oracle.Search.Infix.{IsInfix}
use diy_ddmin.Oracle.Search.Lines.{Lacks, LinesFit, prints_complete}
use diy_ddmin.Oracle.Verdict.{reproduces, Tidy, test_buffer_overflow-reproduces}
use diy_ddmin.Oracle.Verdict.Threads.{test_buffer_overflow_thread-reproduces}

-- What a run has written to its standard error when it ends or is killed
abbrev pub error_text : Run → Bytes
error_text r = r.err_at (kill_child r).second

-- The answer is 1 for a text with the message, and 0 for another one.
abbrev pub Tells : ℕ → (msg text : Bytes) → Type 0
Tells answer msg text = ((answer ≡ 1) ↔ IsInfix msg text) × (answer ≤ 1)

answer-Tells :
    (msg text : Bytes)
    → msg ≢ []
    → Lacks newline msg
    → Lacks 0 text
    → LinesFit 511 text
    → Tells (if prints msg text then 1 else 0) msg text
answer-Tells msg text ne lacks plain fit =
    let complete = prints_complete msg text ne lacks plain fit in
    elim (Bool-cases (prints msg text)) [
      | inl e ↦ rw e ((λ one. complete.0 e, λ i. refl), omega arith)
      | inr e ↦ rw e (
        (λ one. absurd (omega (arith, one)), λ i. absurd (none_found e (complete.1 i))),
        omega arith,
      )
    ]
  where
    none_found : {b : Bool} → b ≡ false → b ≡ true → ⊥
    none_found f t = cc

module _ {host : Host} {target : FilePath} {behave : Bytes → Run}
    (healthy : IsHealthy host target behave) (input : FilePath) (c msg : Bytes)
    (some_msg : msg ≢ []) (one_line : Lacks newline msg) (plain : Lacks 0 (error_text (behave c)))
    (fit : LinesFit 511 (error_text (behave c))) where
  -- On a healthy machine, for an existing input of a name shorter than 240 bytes and a nonempty message
  -- without a newline, where the text that the program under test has written to its standard error
  -- when it ends or is killed has no NUL and no line of more than 511 bytes, newline included: the
  -- test answers 1 if the message stands anywhere in that text, and 0 otherwise. No file has changed
  -- but the test's two outputs, which are gone.
  pub test_buffer_overflow-Tells :
      (w : World)
      → length input < 240
      → w.files input ≡ some c
      → (answer : ℕ) × (w' : World) × (test_buffer_overflow host target input msg w
          ≡ done answer w')
        × Tells answer msg (error_text (behave c))
        × Tidy (stdout_path input) (stderr_path input) w w'
  unfolding reproduces
  test_buffer_overflow-Tells w fits h =
      let (w', run, tidy) = test_buffer_overflow-reproduces healthy input c msg fits w h in
      (_, w', run, answer-Tells msg (error_text (behave c)) some_msg one_line plain fit, tidy)

  -- On a healthy machine, for an existing input, a thread number below 2 ^ 31 whose error output is not
  -- the input, and a nonempty message without a newline, where the text that the program under test
  -- has written to its standard error when it ends or is killed has no NUL and no line of more than
  -- 511 bytes, newline included: the test that the thread makes, with no other thread in a test,
  -- answers 1 if the message stands anywhere in that text, and 0 otherwise. No file has changed but
  -- the thread's two outputs, which are gone.
  pub test_buffer_overflow_thread-Tells :
      (i : ℕ) (w : World)
      → i < 2 ^ 31
      → dummy_path i (codes ".stderr") ≢ input
      → w.files input ≡ some c
      → (answer : ℕ) × (w' : World) × (test_buffer_overflow_thread host target input msg i w
          ≡ done answer w')
        × Tells answer msg (error_text (behave c))
        × Tidy (dummy_path i (codes ".stdout")) (dummy_path i (codes ".stderr")) w w'
  unfolding reproduces
  test_buffer_overflow_thread-Tells i w few reads h =
      let (w', run, tidy) =
        test_buffer_overflow_thread-reproduces healthy input c msg i few reads w h in
      (_, w', run, answer-Tells msg (error_text (behave c)) some_msg one_line plain fit, tidy)
