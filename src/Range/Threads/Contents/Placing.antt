-- ===== src/Range/Threads/Contents/Placing.antt =====
-- A thread of `test_range` that has found the error puts its file in `fail_arr`.
use diy_ddmin.Base.{
  Bool-cases, leb, ℕ, suc, ◌+◌, ◌*◌, ◌-◌, ◌≤◌, ◌≡◌, ◌≢◌, refl, sym, ap, subst, ◌∙◌, Bool, true,
  List, inl, inr, arith, length, if◌then◌else◌, ◌==◌, eq→==, ne→==, ==→ne, ==→eq,
}
use diy_ddmin.Paths.{Bytes, FilePath}
use diy_ddmin.Machine.{Run, Host}
use diy_ddmin.Machine.Healthy.{IsHealthy}
use diy_ddmin.Oracle.Verdict.{reproduces}
use diy_ddmin.Range.Threads.{
  Worker, tested, placed, closing, finished, System, worker_move, thread_n, thread_path, update,
}
use diy_ddmin.Range.Threads.Names.{out_name}
use diy_ddmin.Range.Threads.Totals.{total_swap, total_member, one_if}
use diy_ddmin.Range.Threads.Invariant.{Inv}
use diy_ddmin.Range.Threads.Signals.{same_one}
use diy_ddmin.Range.Threads.Contents.{Finds, Each, Files, is_hit, is_placing}
use diy_ddmin.Range.Threads.Contents.Each.{Each-set}
use diy_ddmin.Range.Threads.Contents.Transfer.{Failing-same, Finds-same, Listed-same}
use diy_ddmin.Range.Threads.Contents.Advance.{behind, Kept, Here, advance, knowledge, few}
use diy_ddmin.Range.Threads.Contents.Advance.{round as round_of}

out_name-next : (i k : ℕ) → thread_path (i + thread_n * (k + 1)) ≡ out_name i (k + 1)
out_name-next i k =
    let next : suc k ≡ k + 1 = omega arith in
    subst (λ m. thread_path (i + thread_n * m) ≡ out_name i m) next refl

module _ {host : Host} {program_path : FilePath} {behave : Bytes → Run}
    (healthy : IsHealthy host program_path behave) (msg : Bytes) (c : Bytes)
    (before after : List Worker) (s : System) (inv : Inv s) (f : Files (reproduces behave msg) c s)
    (live : s.coordinator ≢ finished) where
  abbrev fails : Bytes → Bool
  fails = reproduces behave msg

  abbrev text : Bytes
  text = f.text

  pub tested-Kept :
      (a : ℕ)
      → Here fails c before after s inv f live (tested a true)
      → Kept fails c before after
          (worker_move host program_path msg (length before) (tested a true) s)
  unfolding worker_move
  tested-Kept a e =
      let round = round_of fails c before after s inv f live in
      let i = length before in
      let p' = placed a s.fail_n in
      let t = behind fails c before after p' (record s { fail_n = s.fail_n + 1 }) in
      advance fails c before after s inv f live t refl refl refl f.current f.named (record {
        positive = round.positive;
        origins = round.origins;
        finds =
            Each-set (Finds fails text s) (Finds fails text t) 4 0 i before (tested a true) p' after
              (omega arith) (omega (arith, inv.all, ap length e))
              (λ j q ne below h. Finds-same fails text s t refl j q refl refl h)
              (Failing-same fails text s t refl _ refl
                (knowledge fails c before after s inv f live (tested a true) e))
              (subst (Each (Finds fails text s) 0) e round.finds);
        listed = λ k h. elim (Bool-cases (s.fail_n == k)) [
          | inl new ↦ inl (
              let here = total_member (is_placing k) t.workers before p' after refl in
              omega (arith, here, same_one s.fail_n k new))
          | inr old ↦ elim (round.listed k (omega (arith, h, ==→ne s.fail_n k old))) [
            | inl some_thread ↦ inl (
                omega (
                  arith,
                  some_thread,
                  total_swap (is_placing k) s.workers before (tested a true) p' after e,
                ))
            | inr l ↦ inr (
                Listed-same fails text s t refl k refl (λ i. omega arith)
                  (λ i time few former. refl) l)
          ]
        ];
        counted =
            omega
              (arith, round.counted, total_swap is_hit s.workers before (tested a true) p' after e);
      })

  pub placed-Kept :
      (a k : ℕ)
      → Here fails c before after s inv f live (placed a k)
      → Kept fails c before after (worker_move host program_path msg (length before) (placed a k) s)
  unfolding worker_move
  placed-Kept a k e =
      let round = round_of fails c before after s inv f live in
      let i = length before in
      let stack = s.fail_stack i + 1 in
      let t = behind fails c before after (closing a) (record s {
        fail_max = if leb (s.fail_max - thread_n) s.fail_n then s.fail_max * 2 else s.fail_max;
        fail_arr = update k (s.out_files i) s.fail_arr;
        fail_stack = update i stack s.fail_stack;
        out_files = update i (thread_path (i + thread_n * stack)) s.out_files;
      }) in
      let name : (j : ℕ) → t.out_files j ≡ out_name j (t.fail_stack j) = λ j.
        elim (Bool-cases (i == j)) [
          | inl here ↦
              rw here
                (out_name-next i (s.fail_stack i) ∙ ap (λ m. out_name m stack) (==→eq i j here))
          | inr away ↦ rw away (f.named j)
        ] in
      let grows : (j : ℕ) → s.fail_stack j ≤ t.fail_stack j = λ j. elim (Bool-cases (i == j)) [
        | inl here ↦ rw here (omega (arith, ap s.fail_stack (==→eq i j here)))
        | inr away ↦ rw away (omega arith)
      ] in
      advance fails c before after s inv f live t refl refl refl f.current name (record {
        positive = round.positive;
        origins = round.origins;
        finds =
            Each-set (Finds fails text s) (Finds fails text t) 4 0 i before (placed a k) (closing a)
              after (omega arith) (omega (arith, inv.all, ap length e))
              (λ j q ne below h.
                Finds-same fails text s t refl j q (rw (ne→== i j (λ same. ne (sym same))) refl)
                  refl h)
              tt (subst (Each (Finds fails text s) 0) e round.finds);
        listed = λ m h. elim (Bool-cases (k == m)) [
          | inl here ↦ inr (record {
            thread = i;
            few = few fails c before after s inv f live _ e;
            time = s.fail_stack i;
            former = rw (eq→== i i refl) (omega arith);
            named = rw here (f.named i);
            failing =
                Failing-same fails text s t refl _ refl
                  (knowledge fails c before after s inv f live (placed a k) e);
          })
          | inr away ↦ elim (round.listed m h) [
            | inl some_thread ↦
                let other : one_if k m ≡ 0 = rw away refl in
                inl (
                  omega (
                    arith,
                    some_thread,
                    other,
                    total_swap (is_placing m) s.workers before (placed a k) (closing a) after e,
                  ))
            | inr l ↦ inr (
                Listed-same fails text s t refl m (rw away refl) grows (λ i time few former. refl)
                  l)
          ]
        ];
        counted = omega (
          arith,
          round.counted,
          total_swap is_hit s.workers before (placed a k) (closing a) after e,
        );
      })
