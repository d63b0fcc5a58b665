-- ===== src/Range/Increasing/Window.antt =====
-- One window of `range_increasing`: the input without it is in the output file, and is tested.
use diy_ddmin.Base.{
  ℕ, ◌+◌, ◌-◌, ◌≤◌, ◌<◌, ◌≡◌, refl, ap, ◌∙◌, Bool, true, false, some, [], ◌++◌, arith, Bool-cases,
  inl, inr, length, take, drop, length-drop, take-all, drop-all, ltb, ltb→le, ◌==◌, if◌then◌else◌,
  length-append, le→ltb, ◌∷◌,
}
use diy_ddmin.Base.Parts.{length-cut, drop-drop}
use diy_ddmin.Paths.{Bytes, FilePath}
use diy_ddmin.Machine.{Run, Host, World, done}
use diy_ddmin.Machine.Healthy.{IsHealthy}
use diy_ddmin.Stdio.{InStream, OutStream, null_sink, rewind_in, fflush}
use diy_ddmin.Stdio.Reading.{rest, contents-some, ahead-nil}
use diy_ddmin.Stdio.Writing.{
  sink, Stored, Stored-trans, over, over-short, fflush-Stored, byte_count_file-length,
  truncate-Stored,
}
use diy_ddmin.Oracle.Verdict.{reproduces}
use diy_ddmin.Ddmin.Candidate.{Apart, Tried, test-Tried}
use diy_ddmin.Range.{read_and_write}
use diy_ddmin.Range.Copying.{read_and_write-Copied}
use diy_ddmin.Range.Increasing.{commit_window, Files, test_window}
use diy_ddmin.Range.Increasing.Spec.{without}

over-le : (b old : Bytes) → length b ≤ length (over b old)
over-le b old = omega (arith, length-append b (drop (length b) old))

-- After the candidate is committed, the file holds it and nothing else.
pub commit_window-Stored :
    (out_file : FilePath) (b old : Bytes) (w : World)
    → w.files out_file ≡ some old
    → (w' : World) × (commit_window (sink out_file 0 b) out_file (length b) w
        ≡ done (sink out_file (length b) []) w')
      × Stored out_file b w w'
unfolding commit_window
commit_window-Stored out_file b old w was =
    let (w1, flushed, st1) = fflush-Stored out_file b old w was in
    let counted = byte_count_file-length out_file w1 st1.holds in
    elim (Bool-cases (ltb (length b) (length (over b old)))) [
      | inl longer ↦
          let (w2, cut, st2) = truncate-Stored out_file b old w1 st1.holds in
          (w2, rw (flushed, counted, longer, cut), Stored-trans st1 st2)
      | inr exact ↦
          let e : over b old ≡ b = over-short b old (ltb→le _ _ exact) in
          (
            w1,
            rw (flushed, counted, exact, le→ltb _ _ (over-le b old)),
            record {
              holds = st1.holds ∙ ap some e;
              others = st1.others;
              file_no = st1.file_no;
              fail_no = st1.fail_no;
            },
          )
    ]

-- The streams of `f` are on its files; the input holds `c`, and nothing is read ahead or waiting.
pub record Idle (c : Bytes) (f : Files) (w : World) : Type 0 where
  pub held : w.files f.input_path ≡ some c
  pub reads : f.in_fp.path ≡ f.input_path
  pub empty : f.in_fp.ahead ≡ []
  pub off : ℕ
  pub writes : f.out_fp ≡ sink f.out_file off []
  pub old : Bytes
  pub made : w.files f.out_file ≡ some old
  pub apart : Apart f.out_file f.input_path
  pub short : length f.out_file < 240

pub flush_null :
    (b : Bytes) (w : World)
    → (t : OutStream) × (fflush (record null_sink { pending = b }) w ≡ done t w)
unfolding fflush
flush_null [] w = (_, refl)
flush_null (x ∷ b) w = (_, refl)

pub is_one : (b : Bool) → ((if b then 1 else 0) == 1) ≡ b
is_one true = refl
is_one false = refl

module _ {host : Host} {program_path : FilePath} {behave : Bytes → Run}
    (healthy : IsHealthy host program_path behave) (msg : Bytes) where
  abbrev fails : Bytes → Bool
  fails = reproduces behave msg

  -- The streams when the bytes around a window have been copied.
  abbrev pub Copies : InStream → FilePath → Bytes → ℕ → ℕ → World → Type 0
  Copies s out_file c begin rs w =
      (s1 : InStream) × (s2 : InStream) × (s3 : InStream) × (gap : Bytes) × (read_and_write host
          (rewind_in s) (sink out_file 0 []) begin w
        ≡ done (s1, sink out_file 0 (take begin c)) w)
      × (read_and_write host s1 null_sink rs w ≡ done (s2, record null_sink { pending = gap }) w)
      × (read_and_write host s2 (sink out_file 0 (take begin c)) (length c - (begin + rs)) w
          ≡ done (s3, sink out_file 0 (without begin rs c)) w)
      × (s3.ahead ≡ [])
      × (s3.path ≡ s.path)

  pub copies :
      (s : InStream) (out_file : FilePath) (c : Bytes) (begin rs : ℕ) (w : World)
      → w.files s.path ≡ some c
      → s.ahead ≡ []
      → begin + rs ≤ length c
      → Copies s out_file c begin rs w
  copies s out_file c begin rs w held empty inside =
      let whole : rest (rewind_in s) w ≡ c = rw (empty, contents-some s.path w held) in
      let (s1, copied, after1) =
        read_and_write-Copied host w (rewind_in s) (sink out_file 0 []) begin
          (omega (arith, ap length whole)) in
      let left1 : rest s1 w ≡ drop begin c = after1.left ∙ ap (drop begin) whole in
      let (s2, skipped, after2) =
        read_and_write-Copied host w s1 null_sink rs
          (omega (arith, ap length left1, length-drop begin c)) in
      let left2 : rest s2 w ≡ drop (begin + rs) c =
        after2.left ∙ ap (drop rs) left1 ∙ drop-drop rs begin c in
      let n = length c - (begin + rs) in
      let size : length (drop (begin + rs) c) ≡ n = length-drop (begin + rs) c in
      let (s3, copied2, after3) =
        read_and_write-Copied host w s2 (sink out_file 0 (take begin c)) n
          (omega (arith, ap length left2, size)) in
      let behind : take n (rest s2 w) ≡ drop (begin + rs) c =
        ap (take n) left2 ∙ take-all n (drop (begin + rs) c) (omega (arith, size)) in
      let left3 : rest s3 w ≡ [] =
        after3.left ∙ ap (drop n) left2 ∙ drop-all n (drop (begin + rs) c) (omega (arith, size)) in
      (
        s1,
        s2,
        s3,
        take rs (rest s1 w),
        copied ∙ ap (λ j. done (s1, sink out_file 0 (take begin j)) w) whole,
        skipped,
        copied2 ∙ ap (λ j. done (s3, sink out_file 0 (take begin c ++ j)) w) behind,
        ahead-nil s3 w left3,
        after3.same_path ∙ after2.same_path ∙ after1.same_path,
      )

  -- The test answers for the candidate, which is now in the output file, and the files are idle.
  pub test_window-Idle :
      (rs begin : ℕ) (c : Bytes) (f : Files) (w : World)
      → Idle c f w
      → begin + rs ≤ length c
      → (f' : Files) × (w' : World) × (test_window host program_path msg rs begin (length c) f w
          ≡ done (fails (without begin rs c), f') w')
        × Tried f.out_file (without begin rs c) w w'
        × Idle c f' w'
        × (f'.out_file ≡ f.out_file)
        × (f'.input_path ≡ f.input_path)
  unfolding test_window
  test_window-Idle rs begin c f w idle inside =
      let out_file = f.out_file in
      let b = without begin rs c in
      let size : length b ≡ length c - rs = length-cut begin rs c inside in
      let (s1, s2, s3, gap, copied, skipped, copied2, empty3, same) =
        copies f.in_fp out_file c begin rs w (ap w.files idle.reads ∙ idle.held) idle.empty
          inside in
      let (t, dropped) = flush_null gap w in
      let (w1, committed, stored) = commit_window-Stored out_file b idle.old w idle.made in
      let (w2, tested, tried) = test-Tried healthy msg out_file idle.short b w w1 stored in
      let f' : Files = record f { in_fp = s3; out_fp = sink out_file (length c - rs) [] } in
      let a = idle.apart in
      (
        f',
        w2,
        rw (
          idle.writes,
          copied,
          skipped,
          dropped,
          copied2,
          rw size at committed,
          tested,
          is_one (fails b),
        ),
        tried,
        record {
          held = tried.others f.input_path a.no_file a.no_out a.no_err ∙ idle.held;
          reads = same ∙ idle.reads;
          empty = empty3;
          off = length c - rs;
          writes = refl;
          old = b;
          made = tried.holds;
          apart = a;
          short = idle.short;
        },
        refl,
        refl,
      )
