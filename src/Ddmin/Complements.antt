-- ===== src/Ddmin/Complements.antt =====
-- The loop over the complements finds the first one that fails, as `first_cut` does.
use Prim.Native.Nat.{max}
use mathlib.Core.Option.{some-injective}
use diy_ddmin.Base.{
  ℕ, zero, suc, ◌+◌, ◌-◌, ◌*◌, ◌≤◌, ◌<◌, ◌^◌, ◌≡◌, refl, sym, ap, subst, ◌∙◌, Bool, Option, none,
  some, [], ◌++◌, arith, Bool-cases, inl, inr, length, take, drop, length-drop, if◌then◌else◌, ltb,
  ltb→lt, take-all, drop-all,
}
use diy_ddmin.Base.Parts.{length-cut, drop-drop}
use diy_ddmin.Paths.{Bytes, FilePath}
use diy_ddmin.Machine.{Run, Host, World, Outcome, done}
use diy_ddmin.Machine.Healthy.{IsHealthy}
use diy_ddmin.Stdio.{InStream, OutStream, copy_bytes, rewind_in}
use diy_ddmin.Stdio.Reading.{rest, contents-some, ahead-nil}
use diy_ddmin.Stdio.Copying.{copy_bytes-Copied}
use diy_ddmin.Stdio.Writing.{sink}
use diy_ddmin.Oracle.{test_buffer_overflow}
use diy_ddmin.Ddmin.{commit_complement, complement_loop, skip_part}
use diy_ddmin.Ddmin.Candidate.{
  commit_complement-Stored, Apart, exact-part_size, Tried, Tried-trans, test-Tried,
}
use diy_ddmin.Ddmin.Spec.{part_size, first_cut}
use diy_ddmin.Ddmin.Spec.Cuts.{part_size_bounds, part_size-one}
use diy_ddmin.Oracle.Verdict.{reproduces}
use diy_ddmin.Ddmin.Skip.{skip_part-fits, part_size-le-array, part_size-rest_fits}

-- The last part reaches to the end.
not_last : (start n size : ℕ) → start + part_size (size - start) (suc n) < size → 1 ≤ n
not_last start zero size h = absurd (omega (arith, part_size-one (size - start)))
not_last start (suc n) size h = omega arith

module _ {host : Host} {program_path : FilePath} {behave : Bytes → Run}
    (healthy : IsHealthy host program_path behave) (msg : Bytes) (out_file : FilePath)
    (fits : length out_file < 240) where
  abbrev fails : Bytes → Bool
  fails = reproduces behave msg

  -- The new number of parts, and the streams with nothing waiting in them.
  pub data CutSearched (n : ℕ) (w : World)
      : Option Bytes → Outcome (Option ℕ × InStream × OutStream) → Type 0 where
    cut_hit :
        {d : Bytes} {w' : World} (s' : InStream) (off : ℕ)
        → Tried out_file d w w'
        → CutSearched n w (some d) (done (some (max (n - 1) 2), s', sink out_file off []) w')
    cut_miss :
        {w' : World} (s' : InStream) (off : ℕ) (last : Bytes)
        → Tried out_file last w w'
        → CutSearched n w none (done (none, s', sink out_file off []) w')

  pub CutSearched-hit :
      {n : ℕ} {w : World} {o : Option Bytes} {r : Outcome (Option ℕ × InStream × OutStream)}
      → CutSearched n w o r
      → (d : Bytes) → o ≡ some d
      → (s' : InStream) × (off : ℕ) × (w' : World) × (r
          ≡ done (some (max (n - 1) 2), s', sink out_file off []) w')
        × Tried out_file d w w'
  CutSearched-hit {w} (cut_hit {d = d'} {w' = w'} s' off t) d e =
      (s', off, w', refl, subst (λ b. Tried out_file b w w') (some-injective d' d e) t)
  CutSearched-hit (cut_miss s' off last t) d h = cc

  pub CutSearched-miss :
      {n : ℕ} {w : World} {o : Option Bytes} {r : Outcome (Option ℕ × InStream × OutStream)}
      → CutSearched n w o r
      → o ≡ none
      → (s' : InStream) × (off : ℕ) × (w' : World) × (last : Bytes) × (r
          ≡ done (none, s', sink out_file off []) w')
        × Tried out_file last w w'
  CutSearched-miss (cut_hit s' off t) e = cc
  CutSearched-miss (cut_miss {w' = w'} s' off last t) h = (s', off, w', last, refl, t)

  CutSearched-after :
      {n : ℕ} {a : Bytes} {w w1 : World} {o : Option Bytes}
      {r : Outcome (Option ℕ × InStream × OutStream)}
      → Tried out_file a w w1
      → CutSearched n w1 o r
      → CutSearched n w o r
  CutSearched-after f (cut_hit s' off g) = cut_hit s' off (Tried-trans f g)
  CutSearched-after f (cut_miss s' off last g) = cut_miss s' off last (Tried-trans f g)

  -- The candidate without the `k` bytes from `start` on.
  abbrev cut_at : ℕ → ℕ → Bytes → Bytes
  cut_at start k c = take start c ++ drop (start + k) c

  -- One round over the input `c` from its start: `s` has nothing read ahead.
  abbrev Round : InStream → World → Bytes → ℕ → ℕ → Type 0
  Round s w c start k =
      (s1 : InStream) × (s2 : InStream) × (s3 : InStream) × (w1 : World) × (w2 : World)
      × (copy_bytes host (rewind_in s) (sink out_file 0 []) start w
          ≡ done (s1, sink out_file 0 (take start c)) w)
      × (skip_part host s1 k w ≡ done s2 w)
      × (copy_bytes host s2 (sink out_file 0 (take start c)) (length c - (start + k)) w
          ≡ done (s3, sink out_file 0 (cut_at start k c)) w)
      × (commit_complement (sink out_file 0 (cut_at start k c)) out_file (length c - k) w
          ≡ done (sink out_file (length c - k) []) w1)
      × (test_buffer_overflow host program_path out_file msg w1
          ≡ done (if fails (cut_at start k c) then 1 else 0) w2)
      × Tried out_file (cut_at start k c) w w2
      × (s3.ahead ≡ [])
      × (s3.path ≡ s.path)

  round :
      (s : InStream) (w : World) (old c : Bytes) (start k : ℕ)
      → Apart out_file s.path
      → w.files out_file ≡ some old
      → w.files s.path ≡ some c
      → s.ahead ≡ []
      → start + k ≤ length c
      → k ≤ 2048
      → Round s w c start k
  round s w old c start k apart was held empty inside small =
      let whole : rest (rewind_in s) w ≡ c = rw (empty, contents-some s.path w held) in
      let (s1, copied, after1) =
        copy_bytes-Copied host w (rewind_in s) (sink out_file 0 []) start
          (omega (arith, ap length whole)) in
      let left1 : rest s1 w ≡ drop start c = after1.left ∙ ap (drop start) whole in
      let (s2, skipped, after2) =
        skip_part-fits host s1 k w (omega (arith, ap length left1, length-drop start c)) small in
      let left2 : rest s2 w ≡ drop (start + k) c =
        after2.left ∙ ap (drop k) left1 ∙ drop-drop k start c in
      let n = length c - (start + k) in
      let (s3, copied2, after3) =
        copy_bytes-Copied host w s2 (sink out_file 0 (take start c)) n
          (omega (arith, ap length left2, length-drop (start + k) c)) in
      let behind : take n (rest s2 w) ≡ drop (start + k) c =
        ap (take n) left2
        ∙ take-all n (drop (start + k) c) (omega (arith, length-drop (start + k) c)) in
      let left3 : rest s3 w ≡ [] =
        after3.left
        ∙ ap (drop n) left2
        ∙ drop-all n (drop (start + k) c) (omega (arith, length-drop (start + k) c)) in
      let size : length (cut_at start k c) ≡ length c - k = length-cut start k c inside in
      let (w1, committed, stored) =
        commit_complement-Stored out_file (cut_at start k c) old w was in
      let (w2, tested, tried) =
        test-Tried healthy msg out_file fits (cut_at start k c) w w1 stored in
      (
        s1,
        s2,
        s3,
        w1,
        w2,
        copied ∙ ap (λ j. done (s1, sink out_file 0 (take start j)) w) whole,
        skipped,
        copied2 ∙ ap (λ j. done (s3, sink out_file 0 (take start c ++ j)) w) behind,
        rw size at committed,
        tested,
        tried,
        ahead-nil s3 w left3,
        after3.same_path ∙ after2.same_path ∙ after1.same_path,
      )

  -- On a healthy machine, for an input of less than 2 ^ 24 bytes whose file is neither the candidate file nor
  -- an output of its test, with an existing candidate file of a name shorter than 240 bytes, a stream
  -- with nothing read ahead, and `n'` of the `n` parts left, each of one to 2048 bytes: the loop stops at the first
  -- complement that reproduces the error, with that complement in the candidate file and `n - 1`
  -- or 2 as the next number of parts, or tries all of them and finds none.
  pub complement_loop-CutSearched :
      (n n' start f off : ℕ) (s : InStream) (w : World) (old c : Bytes)
      → Apart out_file s.path
      → w.files out_file ≡ some old
      → w.files s.path ≡ some c
      → s.ahead ≡ []
      → f ≡ length c
      → length c < 2 ^ 24
      → 1 ≤ n'
      → start + n' ≤ length c
      → length c - start ≤ 2048 * n'
      → CutSearched n w
          (first_cut fails n' c start)
          (complement_loop host program_path msg n n' start f out_file s (sink out_file off []) w)
  unfolding complement_loop first_cut
  complement_loop-CutSearched n zero start f off s w old c apart was held empty size small one fit
        arrays =
      absurd (omega arith)
  complement_loop-CutSearched n (suc n') start f off s w old c apart was held empty size small one
        fit arrays =
      let a = length c - start in
      let k = part_size a (suc n') in
      let bounds : (1 ≤ k) × (k + (suc n' - 1) ≤ a) =
        part_size_bounds a (suc n') (omega arith) (omega arith) in
      let quot : host.ceil_quot (f - start) (suc n') ≡ k =
        ap (λ j. host.ceil_quot (j - start) (suc n')) size
        ∙ exact-part_size healthy a (suc n') (omega arith) (omega arith) in
      let (s1, s2, s3, w1, w2, copied, skipped, copied2, committed, tested, tried, empty3, same) =
        round s w old c start k apart was held empty (omega arith)
          (part_size-le-array a (suc n') (omega arith) arrays) in
      let more_parts : start + k < length c → 1 ≤ n' = λ h. not_last start n' (length c) h in
      elim (Bool-cases (fails (cut_at start k c))) [
        | inl bad ↦
            rw (quot, size, copied, skipped, copied2, committed, tested, bad)
              (cut_hit s3 (length c - k) tried)
        | inr good ↦ elim (Bool-cases (ltb (start + k) (length c))) [
          | inl more ↦
              let end_inside : start + k < length c = ltb→lt (start + k) (length c) more in
              let others = tried.others s.path apart.no_file apart.no_out apart.no_err in
              rw (quot, size, copied, skipped, copied2, committed, tested, good, more)
                (CutSearched-after tried (
                  complement_loop-CutSearched n n' (start + k) (length c) (length c - k) s3 w2
                    (cut_at start k c) c (subst (Apart out_file) (sym same) apart) tried.holds
                    (ap w2.files same ∙ others ∙ held) empty3 refl small (more_parts end_inside)
                    (omega arith) (omega (arith, part_size-rest_fits a n' arrays))))
          | inr over ↦
              rw (quot, size, copied, skipped, copied2, committed, tested, good, over)
                (cut_miss s3 (length c - k) (cut_at start k c) tried)
        ]
      ]
