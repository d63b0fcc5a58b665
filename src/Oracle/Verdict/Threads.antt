-- ===== src/Oracle/Verdict/Threads.antt =====
-- `test_buffer_overflow_thread`, whose outputs are named by the thread.
use diy_ddmin.Base.{
  ℕ, zero, suc, ◌+◌, ◌/◌, ◌%◌, ◌^◌, ◌<◌, ◌≡◌, ◌≢◌, refl, sym, ap, ◌∙◌, some, [], ◌∷◌, ◌++◌, arith,
  if◌then◌else◌, length, lt→ltb, drop, drop-append_length, ltb, Bool-cases, inl, inr,
}
use diy_ddmin.Paths.{codes, Bytes, FilePath, digits, decimal}
use diy_ddmin.Paths.Apart.{length-digits}
use diy_ddmin.Machine.{Run, Host, World, done, into_array}
use diy_ddmin.Machine.Healthy.{IsHealthy}
use diy_ddmin.Runner.{get_error}
use diy_ddmin.Oracle.{create_file, verdict, verdict_thread, dummy_path, test_buffer_overflow_thread}
use diy_ddmin.Oracle.Verdict.{
  reproduces, Tidy, after_test, after_test-Tidy, runner-runs, verdict-runs, after_run-err,
}

digits-append : (fuel n : ℕ) (a s : Bytes) → digits fuel n (a ++ s) ≡ digits fuel n a ++ s
unfolding digits
digits-append zero n a s = refl
digits-append (suc fuel) n a s = elim (Bool-cases (ltb n 10)) [
  | inl small ↦ rw small refl
  | inr large ↦ rw large (digits-append fuel (n / 10) ((48 + n % 10) ∷ a) s)
]

-- The two outputs of a thread differ.
pub dummy_path-ne : (i : ℕ) → dummy_path i (codes ".stdout") ≢ dummy_path i (codes ".stderr")
unfolding dummy_path decimal
dummy_path-ne i h =
    let name = digits (suc i) i [] in
    let e : codes ".stdout" ≡ codes ".stderr" =
      sym (drop-append_length name (codes ".stdout"))
      ∙ ap (drop (length name)) (
          sym (digits-append (suc i) i [] (codes ".stdout"))
          ∙ ap (drop 7) h
          ∙ digits-append (suc i) i [] (codes ".stderr"))
      ∙ drop-append_length name (codes ".stderr") in
    absurd (omega (arith, ap (λ q. first (drop 4 q)) e))
  where
    first : Bytes → ℕ
    first [] = 0
    first (c ∷ s) = c

length-dummy_path :
    (i : ℕ) (s : Bytes) → i < 2 ^ 31 → length s < 200 → length (dummy_path i s) < 256
unfolding dummy_path decimal
length-dummy_path i s h short = omega (arith, length-digits 9 (suc i) i s (omega arith))

module _ {host : Host} {target : FilePath} {behave : Bytes → Run}
    (healthy : IsHealthy host target behave) (input : FilePath) (c msg : Bytes) (i : ℕ)
    (few : i < 2 ^ 31) (reads : dummy_path i (codes ".stderr") ≢ input) where
  -- On a healthy machine the test that thread `i` makes of an existing input, which is not the
  -- thread's own error output, answers 1 exactly if the scan of the source finds the message.
  pub test_buffer_overflow_thread-reproduces :
      (w : World)
      → w.files input ≡ some c
      → (w' : World) × (test_buffer_overflow_thread host target input msg i w
          ≡ done (if reproduces behave msg c then 1 else 0) w')
        × Tidy (dummy_path i (codes ".stdout")) (dummy_path i (codes ".stderr")) w w'
  unfolding test_buffer_overflow_thread into_array create_file after_test get_error verdict
      verdict_thread
  test_buffer_overflow_thread-reproduces w h =
      let out = dummy_path i (codes ".stdout") in
      let err = dummy_path i (codes ".stderr") in
      let apart = dummy_path-ne i in
      let short_out : length out < 256 = length-dummy_path i (codes ".stdout") few (omega arith) in
      let short_err : length err < 256 = length-dummy_path i (codes ".stderr") few (omega arith) in
      (
        after_test healthy input c out err msg apart reads w,
        rw
            (
              lt→ltb _ 256 short_out,
              lt→ltb _ 256 short_err,
              healthy.creates,
              runner-runs healthy input c out err msg apart reads w h,
            )
            (verdict-runs healthy input c out err msg apart reads _
              (after_run-err healthy input c out err msg apart reads w)),
        after_test-Tidy healthy input c out err msg apart reads w,
      )
