-- ===== src/Range/Threads/Contents/Holding.antt =====
-- A thread of `test_range` tests the window of its job.
use diy_ddmin.Base.{
  ℕ, ◌+◌, ◌≤◌, ◌≡◌, ◌≢◌, refl, sym, ap, subst, ◌∙◌, Bool, true, false, List, ◌∷◌, inl, inr, arith,
  length, if◌then◌else◌,
}
use diy_ddmin.Paths.{Bytes, FilePath}
use diy_ddmin.Machine.{Run, Host, done}
use diy_ddmin.Machine.Healthy.{IsHealthy}
use diy_ddmin.Oracle.Verdict.{reproduces}
use diy_ddmin.Range.Queue.{Job}
use diy_ddmin.Range.Increasing.Spec.{without}
use diy_ddmin.Range.Threads.{
  Worker, holding, tested, Coordinator, pushing, posting, awaiting, choosing, finished, System,
  worker_move, run_job, origin_path,
}
use diy_ddmin.Range.Threads.Jobs.{run_job-Tested}
use diy_ddmin.Range.Threads.Names.{
  out_name, out_name-ne-origin_path, origin_path-Untouched, out_name-Untouched, out_name-injective,
}
use diy_ddmin.Range.Threads.Totals.{total_swap, total_member, is_at, one_if_refl}
use diy_ddmin.Range.Threads.Invariant.{Inv, Once, count, is_window}
use diy_ddmin.Range.Threads.Contents.{Finds, Each, Files, is_hit, is_placing}
use diy_ddmin.Range.Threads.Contents.Each.{Each-set}
use diy_ddmin.Range.Threads.Contents.Transfer.{Finds-same, Listed-same}
use diy_ddmin.Range.Threads.Contents.Advance.{behind, Kept, Here, advance, few}
use diy_ddmin.Range.Threads.Contents.Advance.{round as round_of}

-- While `_range` searches, no window is about to be tested twice, or outside the input.
Once-live :
    (rs n : ℕ) (f : ℕ → ℕ) (co : Coordinator)
    → co ≢ finished
    → Once rs n f co
    → (b : ℕ) → f b ≤ is_window rs n b
Once-live rs n f (pushing k) live once b = omega (arith, once b)
Once-live rs n f (posting k) live once b = omega (arith, once b)
Once-live rs n f awaiting live once b = omega (arith, once b)
Once-live rs n f choosing live once b = omega (arith, once b)
Once-live rs n f finished live once b = absurd (live refl)

window_inside : (rs n b : ℕ) → 1 ≤ is_window rs n b → b + rs ≤ n
window_inside rs n b h = ground arith

is_hit-tested : (a : ℕ) (failed : Bool) → is_hit (tested a failed) ≡ (if failed then 1 else 0)
is_hit-tested a true = refl
is_hit-tested a false = refl

module _ {host : Host} {program_path : FilePath} {behave : Bytes → Run}
    (healthy : IsHealthy host program_path behave) (msg : Bytes) (c : Bytes)
    (before after : List Worker) (s : System) (inv : Inv s) (f : Files (reproduces behave msg) c s)
    (live : s.coordinator ≢ finished) where
  abbrev fails : Bytes → Bool
  fails = reproduces behave msg

  abbrev text : Bytes
  text = f.text

  -- The window of a job is inside the input.
  inside :
      (a : ℕ) (job : Job)
      → Here fails c before after s inv f live (holding a job)
      → job.begin + s.rs ≤ length text
  inside a job e =
      let here = total_member (is_at job.begin) s.workers before (holding a job) after e in
      let one = one_if_refl job.begin in
      let counts =
        Once-live s.rs s.input_size (count s.tried s.workers inv.cells) s.coordinator live inv.once
          job.begin in
      omega (
        arith,
        f.sized,
        window_inside s.rs s.input_size job.begin (omega (arith, here, one, counts)),
      )

  pub holding-Kept :
      (a : ℕ) (job : Job)
      → Here fails c before after s inv f live (holding a job)
      → Kept fails c before after
          (worker_move host program_path msg (length before) (holding a job) s)
  unfolding worker_move
  holding-Kept a job e =
      let round = round_of fails c before after s inv f live in
      let i = length before in
      let k = s.fail_stack i in
      let d = without job.begin s.rs text in
      let fits = inside a job e in
      let (w, run, tested_) =
        run_job-Tested healthy msg i (omega (arith, few fails c before after s inv f live _ e))
          (origin_path i) (out_name i k) (out_name-ne-origin_path i k i) (out_name-Untouched i i k)
          s.rs job text s.world (round.origins i (few fails c before after s inv f live _ e))
          fits in
      let ran : run_job host program_path (origin_path i) (s.out_files i) msg i s.rs s.input_size
            job s.world
          ≡ done (fails d) w =
        subst
          (λ n.
            run_job host program_path (origin_path i) (s.out_files i) msg i s.rs n job s.world
            ≡ done (fails d) w)
          f.sized
          (subst
            (λ o.
              run_job host program_path (origin_path i) o msg i s.rs (length text) job s.world
              ≡ done (fails d) w)
            (sym (f.named i)) run) in
      let t =
        behind fails c before after (tested a (fails d))
          (record s { world = w; tried = job.begin ∷ s.tried }) in
      let other : (j l : ℕ)
          → out_name i k ≢ out_name j l
          → w.files (out_name j l) ≡ s.world.files (out_name j l) =
        λ j l ne. tested_.others (out_name j l) ne (out_name-Untouched i j l) in
      let knows : (b : Bool) → fails d ≡ b → Finds fails text t i (tested a b) = λ b.
        elim b as (λ b. fails d ≡ b → Finds fails text t i (tested a b)) [
          | true ↦ λ bad. record {
            begin = job.begin;
            inside = fits;
            holds = tested_.holds;
            reproduces = bad;
          }
          | false ↦ λ good. tt
        ] in
      rw (worker_move, ran)
        (advance fails c before after s inv f live t refl refl refl
          (tested_.others s.input_path (f.foreign.no_out i k) (f.foreign.untouched i) ∙ f.current)
          f.named
          (record {
            positive = round.positive;
            origins = λ j h.
                tested_.others (origin_path j) (out_name-ne-origin_path i k j)
                  (origin_path-Untouched i j)
                ∙ round.origins j h;
            finds =
                Each-set (Finds fails text s) (Finds fails text t) 4 0 i before (holding a job)
                  (tested a (fails d)) after (omega arith) (omega (arith, inv.all, ap length e))
                  (λ j q ne below h.
                    Finds-same fails text s t refl j q refl
                      (other j (s.fail_stack j) (λ same. ne (
                        sym
                          (out_name-injective i k j (s.fail_stack j)
                            (few fails c before after s inv f live _ e) below same).0)))
                      h)
                  (knows (fails d) refl) (subst (Each (Finds fails text s) 0) e round.finds);
            listed = λ m h. elim (round.listed m h) [
              | inl some_thread ↦ inl (
                  omega (
                    arith,
                    some_thread,
                    total_swap (is_placing m) s.workers before (holding a job) (tested a (fails d))
                        after e,
                  ))
              | inr l ↦ inr (
                  Listed-same fails text s t refl m refl (λ i. omega arith)
                    (λ j time h former. other j time (λ same. absurd (
                      let (ij, kl) =
                        out_name-injective i k j time (few fails c before after s inv f live _ e) h
                          same in
                      omega (arith, former, kl, ap s.fail_stack ij))))
                    l)
            ];
            counted = omega (
              arith,
              round.counted,
              total_swap is_hit s.workers before (holding a job) (tested a (fails d)) after e,
              is_hit-tested a (fails d),
            );
          }))
