-- ===== src/MultiThread/Restarting/Unset.antt =====
-- Where a place of `fail_arr` is counted and was never set.
use diy_ddmin.Base.{
  ℕ, zero, suc, ◌+◌, ◌≤◌, ◌<◌, ◌≡◌, ◌≢◌, refl, sym, ap, ◌∙◌, false, none, some, inl, inr, arith,
  ltb, ◌==◌, ne→==, ◌%◌, Bool-cases, Option-cases, length,
}
use diy_ddmin.Paths.{FilePath}
use diy_ddmin.Machine.{Fault, wild_pointer, buffer_overflow, Host, World, fault, into_array}
use diy_ddmin.MultiThread.Cutting.{Found}
use diy_ddmin.MultiThread.Restarting.{Search, ret_path, try_rename, free_all, restart, end_round}

-- An unset place among those that are freed
free_all-unset :
    (left i k : ℕ) (g : Found) (w : World)
    → g.fail_arr k ≡ none
    → i ≤ k
    → k < i + left
    → free_all left i g w ≡ fault wild_pointer
unfolding free_all
free_all-unset zero i k g w unset low high = absurd (omega (arith, low, high))
free_all-unset (suc left) i k g w unset low high = elim (Option-cases (g.fail_arr i)) [
  | inl e ↦ rw (free_all, e) refl
  | inr (p, e) ↦
      let ne : i ≢ k = λ same. absurd (some_unset (sym e ∙ ap g.fail_arr same ∙ unset)) in
      rw (free_all, e)
        (free_all-unset left (i + 1) k g w unset (omega (arith, low, ne)) (omega (arith, high)))
]
  where
    some_unset : {p : FilePath} → some p ≢ none
    some_unset h = cc

module _ (host : Host) (q : Search) (w : World) (k : ℕ) (counted : k < q.found.fail_n)
    (unset : q.found.fail_arr k ≡ none) where
  restart-faults : (select : ℕ) → (f : Fault) × (restart host select q w ≡ fault f)
  unfolding restart into_array try_rename
  restart-faults select = elim (Option-cases (q.found.fail_arr select)) [
    | inl e ↦ (wild_pointer, rw (restart, e) refl)
    | inr (from, e) ↦ elim (Bool-cases (ltb (length (ret_path (q.total_fail_n + 1))) 16)) [
      | inr long ↦ (buffer_overflow, rw (restart, e, into_array, long) refl)
      | inl short ↦ elim (Option-cases (w.files from)) [
        | inl missing ↦ (
          wild_pointer,
          rw
              (
                restart,
                e,
                into_array,
                short,
                try_rename,
                missing,
                free_all-unset q.found.fail_n 0 k q.found w unset (omega arith)
                    (omega (arith, counted)),
              )
              refl,
        )
        | inr (c, there) ↦ (
          wild_pointer,
          rw
              (
                restart,
                e,
                into_array,
                short,
                try_rename,
                there,
                free_all-unset q.found.fail_n 0 k q.found _ unset (omega arith)
                    (omega (arith, counted)),
              )
              refl,
        )
      ]
    ]
  ]

  -- Where one of the places of `fail_arr` that were counted was never set, as after the first find,
  -- the end of the round is undefined behaviour, whichever place `rand` chooses.
  pub end_round_faults : (rand : ℕ → ℕ) → (f : Fault) × (end_round host rand q w ≡ fault f)
  unfolding end_round
  end_round_faults rand =
      let n = q.found.fail_n in
      let (f, stops) = restart-faults (rand q.total_fail_n % n) in
      let some_found : (n == 0) ≡ false = ne→== n 0 (λ e. absurd (omega (arith, e, counted))) in
      (f, rw (some_found, stops) refl)
