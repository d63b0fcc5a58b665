-- ===== src/Ddmin/Candidate.antt =====
-- One candidate of `ddmin`: its bytes are put into the output file, and the program is run on it.
use diy_ddmin.Base.{
  ℕ, ◌<◌, ◌^◌, ◌≡◌, ◌≢◌, refl, ap, ◌∙◌, some, [], arith, ltb, ◌==◌, ltb→le, ==→eq, Bool-cases, inl,
  inr, if◌then◌else◌, length,
}
use diy_ddmin.Paths.{Bytes, FilePath, stdout_path, stderr_path}
use diy_ddmin.Paths.Apart.{stdout_path-ne, stderr_path-ne}
use diy_ddmin.Machine.{Run, Host, World, Outcome, done}
use diy_ddmin.Machine.Healthy.{IsHealthy}
use diy_ddmin.Stdio.{OutStream}
use diy_ddmin.Stdio.Writing.{
  sink, Stored, Stored-trans, over, over-short, fflush-Stored, byte_count_file-length,
  truncate-Stored,
}
use diy_ddmin.Oracle.{test_buffer_overflow}
use diy_ddmin.Oracle.Verdict.{reproduces, test_buffer_overflow-reproduces}
use diy_ddmin.Ddmin.Spec.{part_size}
use diy_ddmin.Ddmin.{commit_subset, commit_complement}

module _ (out_file : FilePath) (b old : Bytes) (w : World) (was : w.files out_file ≡ some old) where
  abbrev Commits : Outcome OutStream → Type 0
  Commits r = (w' : World) × (r ≡ done (sink out_file (length b) []) w') × Stored out_file b w w'

  -- After the subset's bytes are committed, the file holds them and nothing else.
  pub commit_subset-Stored : Commits (commit_subset (sink out_file 0 b) out_file (length b) w)
  unfolding commit_subset
  commit_subset-Stored =
      let (w1, flushed, st1) = fflush-Stored out_file b old w was in
      let counted = byte_count_file-length out_file w1 st1.holds in
      elim (Bool-cases (ltb (length b) (length (over b old)))) [
        | inl longer ↦
            let (w2, cut, st2) = truncate-Stored out_file b old w1 st1.holds in
            (w2, rw (flushed, counted, longer, cut), Stored-trans st1 st2)
        | inr exact ↦
            let e : over b old ≡ b = over-short b old (ltb→le _ _ exact) in
            (
              w1,
              rw (flushed, counted, exact),
              record {
                holds = st1.holds ∙ ap some e;
                others = st1.others;
                file_no = st1.file_no;
                fail_no = st1.fail_no;
              },
            )
      ]

  pub commit_complement-Stored :
      Commits (commit_complement (sink out_file 0 b) out_file (length b) w)
  unfolding commit_complement
  commit_complement-Stored =
      let (w1, flushed, st1) = fflush-Stored out_file b old w was in
      let counted = byte_count_file-length out_file w1 st1.holds in
      elim (Bool-cases (length (over b old) == length b)) [
        | inr longer ↦
            let (w2, cut, st2) = truncate-Stored out_file b old w1 st1.holds in
            (w2, rw (flushed, counted, longer, cut), Stored-trans st1 st2)
        | inl exact ↦
            let e : over b old ≡ b = over-short b old (omega (arith, ==→eq _ _ exact)) in
            (
              w1,
              rw (flushed, counted, exact),
              record {
                holds = st1.holds ∙ ap some e;
                others = st1.others;
                file_no = st1.file_no;
                fail_no = st1.fail_no;
              },
            )
      ]

-- From `w` to `w'` candidates were tried in `out_file`, which now holds `b`. No other file was
-- touched but the two outputs of a test.
pub record Tried (out_file : FilePath) (b : Bytes) (w w' : World) : Type 0 where
  pub holds : w'.files out_file ≡ some b
  pub others :
      (q : FilePath)
      → out_file ≢ q
      → stdout_path out_file ≢ q
      → stderr_path out_file ≢ q
      → w'.files q ≡ w.files q
  pub file_no : w'.file_no ≡ w.file_no
  pub fail_no : w'.fail_no ≡ w.fail_no

-- The file that a stream reads is none of those that a test writes.
pub record Apart (out_file p : FilePath) : Type 0 where
  pub no_file : out_file ≢ p
  pub no_out : stdout_path out_file ≢ p
  pub no_err : stderr_path out_file ≢ p

pub nothing-Tried :
    (out_file : FilePath) (old : Bytes) (w : World)
    → w.files out_file ≡ some old
    → Tried out_file old w w
nothing-Tried out_file old w was = record {
  holds = was;
  others = λ q a b c. refl;
  file_no = refl;
  fail_no = refl;
}

pub exact-part_size :
    {host : Host} {program_path : FilePath} {behave : Bytes → Run}
    → IsHealthy host program_path behave
    → (a b : ℕ) → a < 2 ^ 24
    → 0 < b
    → host.ceil_quot a b ≡ part_size a b
unfolding part_size
exact-part_size healthy a b small h = healthy.exact a b small h

pub Tried-trans :
    {out_file : FilePath} {a b : Bytes} {w w1 w2 : World}
    → Tried out_file a w w1
    → Tried out_file b w1 w2
    → Tried out_file b w w2
Tried-trans f g = record {
  holds = g.holds;
  others = λ q no_file no_out no_err.
      g.others q no_file no_out no_err ∙ f.others q no_file no_out no_err;
  file_no = g.file_no ∙ f.file_no;
  fail_no = g.fail_no ∙ f.fail_no;
}

module _ {host : Host} {program_path : FilePath} {behave : Bytes → Run}
    (healthy : IsHealthy host program_path behave) (msg : Bytes) (out_file : FilePath)
    (fits : length out_file < 240) where
  -- The test on a stored candidate answers whether it reproduces the error, and keeps it.
  pub test-Tried :
      (b : Bytes) (w w1 : World)
      → Stored out_file b w w1
      → (w' : World) × (test_buffer_overflow host program_path out_file msg w1
          ≡ done (if reproduces behave msg b then 1 else 0) w')
        × Tried out_file b w w'
  test-Tried b w w1 st =
      let (w2, run, tidy) =
        test_buffer_overflow-reproduces healthy out_file b msg fits w1 st.holds in
      (
        w2,
        run,
        record {
          holds = tidy.kept out_file (stdout_path-ne out_file) (stderr_path-ne out_file) ∙ st.holds;
          others = λ q no_file no_out no_err. tidy.kept q no_out no_err ∙ st.others q no_file;
          file_no = tidy.file_no ∙ st.file_no;
          fail_no = tidy.fail_no ∙ st.fail_no;
        },
      )
