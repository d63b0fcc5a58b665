-- ===== src/Ddmin/Subsets.antt =====
-- The loop over the parts finds the first part that fails, as `first_part` does.
use mathlib.Core.Option.{some-injective}
use diy_ddmin.Base.{
  ℕ, zero, suc, ◌+◌, ◌-◌, ◌≤◌, ◌<◌, ◌^◌, ◌≡◌, refl, sym, ap, subst, ◌∙◌, Bool, true, false, Option,
  none, some, [], arith, Bool-cases, inl, inr, length, take, drop, length-take, length-drop,
  nil_of_length, if◌then◌else◌,
}
use diy_ddmin.Paths.{Bytes, FilePath}
use diy_ddmin.Machine.{Run, Host, World, Outcome, done}
use diy_ddmin.Machine.Healthy.{IsHealthy}
use diy_ddmin.Stdio.{InStream, OutStream, copy_bytes}
use diy_ddmin.Stdio.Reading.{rest, rest-kept}
use diy_ddmin.Stdio.Copying.{copy_bytes-Copied}
use diy_ddmin.Stdio.Writing.{sink}
use diy_ddmin.Oracle.{test_buffer_overflow}
use diy_ddmin.Oracle.Verdict.{reproduces}
use diy_ddmin.Ddmin.{commit_subset, subset_loop}
use diy_ddmin.Ddmin.Candidate.{
  commit_subset-Stored, Apart, nothing-Tried, exact-part_size, Tried, Tried-trans, test-Tried,
}
use diy_ddmin.Ddmin.Spec.{part_size, first_part}
use diy_ddmin.Ddmin.Spec.Cuts.{part_size_bounds, part_size-one}

module _ {host : Host} {program_path : FilePath} {behave : Bytes → Run}
    (healthy : IsHealthy host program_path behave) (msg : Bytes) (out_file : FilePath)
    (fits : length out_file < 240) where
  abbrev fails : Bytes → Bool
  fails = reproduces behave msg

  -- What the loop has found, and the streams that it leaves: all of the input was read if no part
  -- failed, and nothing is waiting to be written.
  pub data Searched (p : FilePath) (w : World)
      : Option Bytes → Outcome (Bool × InStream × OutStream) → Type 0 where
    hit :
        {d : Bytes} {w' : World} (s' : InStream) (off : ℕ)
        → Tried out_file d w w'
        → Searched p w (some d) (done (true, s', sink out_file off []) w')
    miss :
        {w' : World} (s' : InStream) (off : ℕ) (last : Bytes)
        → Tried out_file last w w'
        → rest s' w' ≡ []
        → s'.path ≡ p
        → Searched p w none (done (false, s', sink out_file off []) w')

  pub Searched-hit :
      {p : FilePath} {w : World} {o : Option Bytes} {r : Outcome (Bool × InStream × OutStream)}
      → Searched p w o r
      → (d : Bytes) → o ≡ some d
      → (s' : InStream) × (off : ℕ) × (w' : World) × (r ≡ done (true, s', sink out_file off []) w')
        × Tried out_file d w w'
  Searched-hit {w} (hit {d = d'} {w' = w'} s' off t) d e =
      (s', off, w', refl, subst (λ b. Tried out_file b w w') (some-injective d' d e) t)
  Searched-hit (miss s' off last t e same) d h = cc

  pub Searched-miss :
      {p : FilePath} {w : World} {o : Option Bytes} {r : Outcome (Bool × InStream × OutStream)}
      → Searched p w o r
      → o ≡ none
      → (s' : InStream) × (off : ℕ) × (w' : World) × (last : Bytes) × (r
          ≡ done (false, s', sink out_file off []) w')
        × Tried out_file last w w'
        × (rest s' w' ≡ [])
        × (s'.path ≡ p)
  Searched-miss (hit s' off t) e = cc
  Searched-miss (miss {w' = w'} s' off last t e same) h = (s', off, w', last, refl, t, e, same)

  Searched-after :
      {p : FilePath} {a : Bytes} {w w1 : World} {o : Option Bytes}
      {r : Outcome (Bool × InStream × OutStream)}
      → Tried out_file a w w1
      → Searched p w1 o r
      → Searched p w o r
  Searched-after f (hit s' off g) = hit s' off (Tried-trans f g)
  Searched-after f (miss s' off last g e same) = miss s' off last (Tried-trans f g) e same

  -- One round: the next `k` bytes of the stream are the candidate, and the test answers for them.
  abbrev Round : InStream → World → Bytes → ℕ → Type 0
  Round s w r k =
      (s' : InStream) × (w1 : World) × (w2 : World) × (copy_bytes host s (sink out_file 0 []) k w
        ≡ done (s', sink out_file 0 (take k r)) w)
      × (commit_subset (sink out_file 0 (take k r)) out_file k w ≡ done (sink out_file k []) w1)
      × (test_buffer_overflow host program_path out_file msg w1
          ≡ done (if fails (take k r) then 1 else 0) w2)
      × Tried out_file (take k r) w w2
      × (rest s' w2 ≡ drop k r)
      × (s'.path ≡ s.path)

  round :
      (s : InStream) (w : World) (old r : Bytes) (k : ℕ)
      → Apart out_file s.path
      → w.files out_file ≡ some old
      → rest s w ≡ r
      → k ≤ length r
      → Round s w r k
  round s w old r k apart was e fit =
      let (s', copied, after) =
        copy_bytes-Copied host w s (sink out_file 0 []) k (omega (arith, ap length e)) in
      let b = take k r in
      let long : length b ≡ k = omega (arith, length-take k r) in
      let (w1, committed, stored) = commit_subset-Stored out_file b old w was in
      let (w2, tested, tried) = test-Tried healthy msg out_file fits b w w1 stored in
      (
        s',
        w1,
        w2,
        copied ∙ ap (λ j. done (s', sink out_file 0 (take k j)) w) e,
        rw long at committed,
        tested,
        tried,
        rest-kept s' w w2 (
              tried.others s'.path (λ h. apart.no_file (h ∙ after.same_path))
                (λ h. apart.no_out (h ∙ after.same_path)) (λ h. apart.no_err (h ∙ after.same_path)))
            ∙ after.left
            ∙ ap (drop k) e,
        after.same_path,
      )

  -- On a healthy machine, over a stream with `r` of less than 2 ^ 24 bytes left to read, whose file is
  -- neither the candidate file nor an output of its test, with an existing candidate file of a name
  -- shorter than 240 bytes, at most as many parts as bytes, and no byte where there is no part: the loop stops at the
  -- first part that reproduces the error, with that part in the candidate file, or tries all
  -- of them and reads the stream to its end.
  pub subset_loop-Searched :
      (n f off : ℕ) (s : InStream) (w : World) (old r : Bytes)
      → Apart out_file s.path
      → w.files out_file ≡ some old
      → rest s w ≡ r
      → f ≡ length r
      → length r < 2 ^ 24
      → n ≤ length r
      → (n ≡ 0 → length r ≡ 0)
      → Searched s.path w
          (first_part fails n r)
          (subset_loop host program_path msg n f out_file s (sink out_file off []) w)
  unfolding subset_loop first_part
  subset_loop-Searched zero f off s w old r apart was e size small fit none_left =
      miss s off old (nothing-Tried out_file old w was) (e ∙ nil_of_length r (none_left refl)) refl
  subset_loop-Searched (suc n) f off s w old r apart was e size small fit none_left =
      let k = part_size (length r) (suc n) in
      let bounds : (1 ≤ k) × (k + (suc n - 1) ≤ length r) =
        part_size_bounds (length r) (suc n) (omega arith) fit in
      let quot : host.ceil_quot f (suc n) ≡ k =
        ap (λ j. host.ceil_quot j (suc n)) size
        ∙ exact-part_size healthy (length r) (suc n) small (omega arith) in
      let last_part : n ≡ 0 → length (drop k r) ≡ 0 = λ z. omega (
        arith,
        length-drop k r,
        ap (λ j. part_size (length r) (suc j)) z ∙ part_size-one (length r),
      ) in
      let (s', w1, w2, copied, committed, tested, tried, left, same) =
        round s w old r k apart was e (omega arith) in
      elim (Bool-cases (fails (take k r))) [
        | inl bad ↦ rw (quot, copied, committed, tested, bad) (hit s' k tried)
        | inr good ↦
            rw (quot, copied, committed, tested, good)
              (Searched-after tried (
                subst
                  (λ p. Searched p w2 (first_part fails n (drop k r)) (
                    subset_loop host program_path msg n (f - k) out_file s' (sink out_file k [])
                      w2))
                  same
                  (subset_loop-Searched n (f - k) k s' w2 (take k r) (drop k r)
                    (subst (Apart out_file) (sym same) apart) tried.holds left
                    (omega (arith, length-drop k r)) (omega (arith, length-drop k r))
                    (omega (arith, length-drop k r)) (λ z. last_part z))))
      ]
