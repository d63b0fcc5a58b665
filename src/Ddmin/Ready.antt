-- ===== src/Ddmin/Ready.antt =====
-- What one round of the outer loop needs, and what it keeps for the next one.
use diy_ddmin.Base.{
  ℕ, suc, ◌+◌, ◌*◌, ◌≤◌, ◌<◌, ◌^◌, ◌≡◌, sym, subst, ◌∙◌, Bool, some, arith, min, length,
}
use diy_ddmin.Paths.{Bytes, FilePath, part_path}
use diy_ddmin.Machine.{Run, Host, World}
use diy_ddmin.Machine.Healthy.{IsHealthy}
use diy_ddmin.Oracle.Verdict.{reproduces}
use diy_ddmin.Ddmin.Candidate.{Tried}
use diy_ddmin.Ddmin.Fresh.{Fresh, Fresh-suc, part_path-Fresh}
use diy_ddmin.Ddmin.Round.{Opened}

-- From `w` to `w'` a result `r` was reached in the file `p'`. A file with a name that was not to be
-- written to is as before.
pub record Reached (r : Bytes) (w : World) (p' : FilePath) (w' : World) : Type 0 where
  pub holds : w'.files p' ≡ some r
  pub kept : (q : FilePath) → Fresh w.file_no q → w'.files q ≡ w.files q

module _ {host : Host} {program_path : FilePath} {behave : Bytes → Run}
    (healthy : IsHealthy host program_path behave) (msg : Bytes) where
  abbrev fails : Bytes → Bool
  fails = reproduces behave msg

  -- When the loop may go on: the numbers of candidate files stay `int`s for `fuel` more rounds, and
  -- every part fits the array that skips it.
  pub record Ready (fuel n : ℕ) (p : FilePath) (c : Bytes) (w : World) : Type 0 where
    pub held : w.files p ≡ some c
    pub fresh : Fresh w.file_no p
    pub numbered : w.file_no + fuel < 2 ^ 31
    pub size : length c ≤ 4096
    pub two : 2 ≤ n
    pub fit : 1 < length c → n ≤ length c

  -- A candidate `b` was tried last in the round that began in `w`.
  pub after_round :
      {p : FilePath} {c b r : Bytes} {w w2 w3 w' : World} {p' : FilePath}
      → Opened host p c w w2
      → Tried (part_path w.file_no) b w2 w3
      → Reached r w3 p' w'
      → Reached r w p' w'
  after_round {w} {w3} o t reached = record {
    holds = reached.holds;
    kept = λ q f.
        let a = f.apart w.file_no (omega arith) in
        reached.kept q
          (subst (λ k. Fresh k q) (sym (t.file_no ∙ o.counted)) (Fresh-suc w.file_no q f))
        ∙ t.others q a.no_file a.no_out a.no_err
        ∙ o.others q a.no_file;
  }

  -- A last round without success leaves the input as it is.
  pub round_Reached :
      {fuel n : ℕ} {p : FilePath} {c b : Bytes} {w w2 w3 : World}
      → Ready fuel n p c w
      → Opened host p c w w2
      → Tried (part_path w.file_no) b w2 w3
      → Reached c w p w3
  round_Reached {p} {w} ready o t =
      let kept : (q : FilePath) → Fresh w.file_no q → _ = λ q f.
        let a = f.apart w.file_no (omega arith) in
        t.others q a.no_file a.no_out a.no_err ∙ o.others q a.no_file in
      record { holds = kept p ready.fresh ∙ ready.held; kept = kept }

  -- The next round reduces the candidate that was tried last.
  pub next_Ready :
      {fuel n n' : ℕ} {p : FilePath} {c d : Bytes} {w w2 w3 : World}
      → Ready (suc fuel) n p c w
      → Opened host p c w w2
      → Tried (part_path w.file_no) d w2 w3
      → length d < length c
      → 2 ≤ n'
      → (1 < length d → n' ≤ length d)
      → Ready fuel n' (part_path w.file_no) d w3
  next_Ready {w} ready o t shorter two fit = record {
    held = t.holds;
    fresh =
        subst (λ k. Fresh k (part_path w.file_no)) (sym (t.file_no ∙ o.counted))
          (part_path-Fresh w.file_no);
    numbered = omega (arith, t.file_no, o.counted, ready.numbered);
    size = omega (arith, ready.size);
    two = two;
    fit = fit;
  }

  -- The next round looks at the same input in finer parts.
  pub finer_Ready :
      {fuel n : ℕ} {p : FilePath} {c b : Bytes} {w w2 w3 : World}
      → Ready (suc fuel) n p c w
      → Opened host p c w w2
      → Tried (part_path w.file_no) b w2 w3
      → n < length c
      → Ready fuel (min (n * 2) (length c)) p c w3
  finer_Ready {p} {w} ready o t coarse =
      let a = ready.fresh.apart w.file_no (omega arith) in
      record {
        held = t.others p a.no_file a.no_out a.no_err ∙ o.others p a.no_file ∙ ready.held;
        fresh =
            subst (λ k. Fresh k p) (sym (t.file_no ∙ o.counted))
              (Fresh-suc w.file_no p ready.fresh);
        numbered = omega (arith, t.file_no, o.counted, ready.numbered);
        size = ready.size;
        two = omega (arith, ready.two);
        fit = λ h. omega arith;
      }
