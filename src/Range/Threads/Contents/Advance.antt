-- ===== src/Range/Threads/Contents/Advance.antt =====
-- Where the thread behind `before` moves: what has to be said of the files of the next state.
use diy_ddmin.Base.{
  ℕ, ◌+◌, ◌<◌, ◌≡◌, ◌≢◌, refl, sym, ap, subst, ◌∙◌, Bool, some, List, ◌∷◌, ◌++◌, inl, inr, arith,
  length, length-append,
}
use diy_ddmin.Paths.{Bytes}
use diy_ddmin.Range.Queue.{Store}
use diy_ddmin.Range.Threads.{Worker, finished, System, Move, moved, blocked, stopped, thread_n}
use diy_ddmin.Range.Threads.Names.{Foreign, out_name}
use diy_ddmin.Range.Threads.Totals.{total, total_swap}
use diy_ddmin.Range.Threads.Invariant.{Inv}
use diy_ddmin.Range.Threads.Contents.{Finds, Round, Each, Files, is_hit, is_placing}
use diy_ddmin.Range.Threads.Contents.Each.{Each-at, Each-set}
use diy_ddmin.Range.Threads.Contents.Transfer.{
  During-in, During-out, Ended-live, Finds-same, Listed-same,
}

module _ (fails : Bytes → Bool) (c : Bytes) (before after : List Worker) where
  abbrev pub behind : Worker → System → System
  behind p s = record s { workers = before ++ (p ∷ after) }

  -- The files are as they should be behind the move of the thread.
  abbrev pub Kept : Move Worker → Type 0
  Kept (moved p s) = Files fails c (behind p s)
  Kept blocked = Unit
  Kept (stopped o) = ⊥

  module _ (s : System) (inv : Inv s) (f : Files fails c s) (live : s.coordinator ≢ finished) where
    abbrev pub Here : Worker → Type 0
    Here p = s.workers ≡ before ++ (p ∷ after)

    abbrev text : Bytes
    text = f.text

    pub round : Round fails text s
    round = During-out s.coordinator live f.round

    -- The next state, whose round is as it should be.
    pub advance :
        (t : System)
        → t.coordinator ≡ s.coordinator
        → t.input_size ≡ s.input_size
        → t.input_path ≡ s.input_path
        → t.world.files t.input_path ≡ some text
        → ((i : ℕ) → t.out_files i ≡ out_name i (t.fail_stack i))
        → Round fails text t
        → Files fails c t
    advance t place size path current named r =
        let going : t.coordinator ≢ finished = λ e. live (sym place ∙ e) in
        record {
          text = text;
          sized = f.sized ∙ sym size;
          found = f.found;
          current = current;
          foreign = subst Foreign (sym path) f.foreign;
          named = named;
          round = During-in t.coordinator r;
          ended = Ended-live fails text t t.coordinator going;
        }

    swap :
        (g : Worker → ℕ) (p q : Worker)
        → Here p
        → total g (before ++ (q ∷ after)) + g p ≡ total g s.workers + g q
    swap g p q e = total_swap g s.workers before p q after e

    pub knowledge : (p : Worker) → Here p → Finds fails text s (length before) p
    knowledge p e =
        Each-at (Finds fails text s) 0 (length before) before p after (omega arith)
          (subst (Each (Finds fails text s) 0) e round.finds)

    -- A move that has nothing to do with the files.
    pub plain :
        (p p' : Worker) (store : Store) (q_sem terminated_sem existing : ℕ)
        → Here p
        → ((k : ℕ) → is_placing k p ≡ is_placing k p')
        → is_hit p ≡ is_hit p'
        → ((t : System) → Finds fails text t (length before) p')
        → Files fails c (
            behind p' (record s {
              store = store;
              q_sem = q_sem;
              terminated_sem = terminated_sem;
              existing = existing;
            }))
    plain p p' store q_sem terminated_sem existing e places hits knows =
        let t = behind p' (record s {
          store = store;
          q_sem = q_sem;
          terminated_sem = terminated_sem;
          existing = existing;
        }) in
        advance t refl refl refl f.current f.named (record {
          positive = round.positive;
          origins = round.origins;
          finds =
              Each-set (Finds fails text s) (Finds fails text t) 4 0 (length before) before p p'
                after (omega arith) (omega (arith, inv.all, ap length e))
                (λ j q ne below h. Finds-same fails text s t refl j q refl refl h) (knows t)
                (subst (Each (Finds fails text s) 0) e round.finds);
          listed = λ k h. elim (round.listed k h) [
            | inl some_thread ↦
                inl (omega (arith, some_thread, swap (is_placing k) p p' e, places k))
            | inr l ↦ inr (
                Listed-same fails text s t refl k refl (λ i. omega arith)
                  (λ i time few former. refl) l)
          ];
          counted = omega (arith, round.counted, swap is_hit p p' e, hits);
        })

    pub few : (p : Worker) → Here p → length before < thread_n
    few p e = omega (arith, inv.all, ap length e, length-append before (p ∷ after))
