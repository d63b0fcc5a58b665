-- ===== src/Range/Threads/Contents/Transfer.antt =====
-- What a state says of its files holds of the next state, where that has the same files.
use diy_ddmin.Base.{
  ℕ, ◌≤◌, ◌<◌, ◌≡◌, ◌≢◌, refl, sym, ap, subst, ◌∙◌, Bool, true, false, some, arith,
}
use diy_ddmin.Paths.{Bytes, FilePath}
use diy_ddmin.Range.Increasing.Spec.{without}
use diy_ddmin.Range.Threads.{
  Worker, waiting, woken, holding, tested, placed, closing, freeing, Coordinator, pushing, posting,
  awaiting, choosing, finished, System, thread_n,
}
use diy_ddmin.Range.Threads.Names.{out_name}
use diy_ddmin.Range.Threads.Contents.{During, Failing, Finds, Listed, Ended}

module _ {A : Type 0} where
  pub During-in : (co : Coordinator) → A → During co A
  During-in (pushing b) a = a
  During-in (posting b) a = a
  During-in awaiting a = a
  During-in choosing a = a
  During-in finished a = tt

  pub During-out : (co : Coordinator) → co ≢ finished → During co A → A
  During-out (pushing b) live a = a
  During-out (posting b) live a = a
  During-out awaiting live a = a
  During-out choosing live a = a
  During-out finished live a = absurd (live refl)

pub Ended-live :
    (fails : Bytes → Bool) (text : Bytes) (s : System) (co : Coordinator)
    → co ≢ finished
    → Ended fails text s co
Ended-live fails text s (pushing b) live = tt
Ended-live fails text s (posting b) live = tt
Ended-live fails text s awaiting live = tt
Ended-live fails text s choosing live = tt
Ended-live fails text s finished live = absurd (live refl)

module _ (fails : Bytes → Bool) (text : Bytes) (s t : System) (size : t.rs ≡ s.rs) where
  pub Failing-same :
      (p : FilePath)
      → t.world.files p ≡ s.world.files p
      → Failing fails text s p
      → Failing fails text t p
  Failing-same p same f = record {
    begin = f.begin;
    inside = omega (arith, f.inside, size);
    holds = same ∙ f.holds ∙ ap (λ r. some (without f.begin r text)) (sym size);
    reproduces = ap (λ r. fails (without f.begin r text)) size ∙ f.reproduces;
  }

  pub Finds-same :
      (i : ℕ) (p : Worker)
      → t.fail_stack i ≡ s.fail_stack i
      → t.world.files (out_name i (s.fail_stack i)) ≡ s.world.files (out_name i (s.fail_stack i))
      → Finds fails text s i p
      → Finds fails text t i p
  Finds-same i waiting stack same f = tt
  Finds-same i woken stack same f = tt
  Finds-same i (holding a job) stack same f = tt
  Finds-same i (tested a false) stack same f = tt
  Finds-same i (tested a true) stack same f =
      subst (λ k. Failing fails text t (out_name i k)) (sym stack) (Failing-same _ same f)
  Finds-same i (placed a k) stack same f =
      subst (λ k. Failing fails text t (out_name i k)) (sym stack) (Failing-same _ same f)
  Finds-same i (closing a) stack same f = tt
  Finds-same i (freeing a) stack same f = tt

  pub Listed-same :
      (k : ℕ)
      → t.fail_arr k ≡ s.fail_arr k
      → ((i : ℕ) → s.fail_stack i ≤ t.fail_stack i)
      → ((i time : ℕ)
          → i < thread_n
          → time < s.fail_stack i
          → t.world.files (out_name i time) ≡ s.world.files (out_name i time))
      → Listed fails text s k
      → Listed fails text t k
  Listed-same k arr grows same l = record {
    thread = l.thread;
    few = l.few;
    time = l.time;
    former = omega (arith, l.former, grows l.thread);
    named = arr ∙ l.named;
    failing = Failing-same _ (same l.thread l.time l.few l.former) l.failing;
  }
