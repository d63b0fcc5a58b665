-- ===== src/MultiThread/Cutting/Threads.antt =====
-- All threads of io/main.c at once: they do not get in each other's way.
use diy_ddmin.Base.{
  Bool-cases, ltb→le, ℕ, ◌+◌, ◌≤◌, ◌≡◌, ◌≢◌, refl, sym, ap, subst, ◌∙◌, some, List, ◌∷◌, ◌++◌, inl,
  inr, arith, ltb, ◌==◌, ==→eq, ==→ne, length, length-append,
}
use diy_ddmin.Paths.{Bytes, FilePath}
use diy_ddmin.Machine.{Run, Host, World}
use diy_ddmin.Machine.Healthy.{IsHealthy}
use diy_ddmin.Range.Threads.{update}
use diy_ddmin.MultiThread.{
  Place, drawing, drawn, gone, Round, Move, moved, joinable, stopped, start_round, thread_move,
  by_thread, joined, Reachable, starts, goes_on,
}
use diy_ddmin.MultiThread.Drawn.{Drawn}
use diy_ddmin.MultiThread.Drawn.Moves.{Reachable-Drawn}
use diy_ddmin.MultiThread.Cutting.{Streams, cutting}
use diy_ddmin.MultiThread.Cutting.Correct.{Idle, cut_range-Stored}

-- The streams of threads 1 to `n` are on files of their own, and on the same input.
pub record Separate (n : ℕ) (c : Bytes) (w : World) (d : ℕ → Streams) : Type 0 where
  pub idle : (i : ℕ) → i ≤ n → Idle c (d i) w
  pub apart : (i j : ℕ) → i ≤ n → j ≤ n → i ≢ j → (d i).out_file ≢ (d j).out_file
  pub input_apart : (i j : ℕ) → i ≤ n → j ≤ n → (d i).out_file ≢ (d j).in_fp.path

module _ {host : Host} {program_path : FilePath} {behave : Bytes → Run}
    (healthy : IsHealthy host program_path behave) (msg : Bytes) (n : ℕ) (c : Bytes) where
  abbrev Good : World × (ℕ → Streams) → Type 0
  Good (w, d) = Separate n c w d

  -- The work for a window inside the input ends, and leaves the threads separate.
  cutting-Separate :
      (i start rs : ℕ) (w : World) (d : ℕ → Streams)
      → i ≤ n
      → start + rs ≤ length c
      → Separate n c w d
      → (a : World × (ℕ → Streams)) × (cutting host i start rs (length c) (w, d) ≡ some a) × Good a
  unfolding cutting
  cutting-Separate i start rs w d few inside sep =
      let (d', w', run, stored, idle, same, reads) =
        cut_range-Stored healthy msg start rs c (d i) w (sep.idle i few) inside in
      let outs : (j : ℕ) → (update i d' d j).out_file ≡ (d j).out_file = λ j.
        elim (Bool-cases (i == j)) [
          | inl e ↦ rw e (same ∙ ap (λ k. (d k).out_file) (==→eq i j e))
          | inr e ↦ rw e refl
        ] in
      let ins : (j : ℕ) → (update i d' d j).in_fp.path ≡ (d j).in_fp.path = λ j.
        elim (Bool-cases (i == j)) [
          | inl e ↦ rw e (reads ∙ ap (λ k. (d k).in_fp.path) (==→eq i j e))
          | inr e ↦ rw e refl
        ] in
      (
        (w', update i d' d),
        rw (cutting, run) refl,
        record {
          idle = λ j h. elim (Bool-cases (i == j)) [
            | inl e ↦ rw e idle
            | inr e ↦
                let old = sep.idle j h in
                let ne = ==→ne i j e in
                rw e (record {
                  held = stored.others (d j).in_fp.path (sep.input_apart i j few h) ∙ old.held;
                  empty = old.empty;
                  off = old.off;
                  writes = old.writes;
                  old = old.old;
                  made = stored.others (d j).out_file (sep.apart i j few h ne) ∙ old.made;
                  apart = old.apart;
                })
          ];
          apart = λ j k h g ne e. sep.apart j k h g ne (sym (outs j) ∙ e ∙ outs k);
          input_apart = λ j k h g e. sep.input_apart j k h g (sym (outs j) ∙ e ∙ ins k);
        },
      )

  module _ (rs : ℕ) (one : 1 ≤ rs) (fits : rs ≤ length c) (w : World) (d : ℕ → Streams)
      (sep : Separate n c w d) where
    abbrev Reaches : Round (World × (ℕ → Streams)) → Type 0
    Reaches s = Reachable (cutting host) n (length c) rs (w, d) s

    reached-Drawn : (s : Round (World × (ℕ → Streams))) → Reaches s → Drawn n (length c) s
    reached-Drawn s r = Reachable-Drawn (cutting host) n (length c) rs (w, d) one fits s r

    module _ (before after : List Place) (s : Round (World × (ℕ → Streams)))
        (inv : Drawn n (length c) s) (good : Good s.state) where
      abbrev Fine : Move (World × (ℕ → Streams)) → Type 0
      Fine (moved p t) = Good t.state
      Fine joinable = Unit
      Fine stopped = ⊥

      thread_move-Fine :
          (p : Place)
          → s.threads ≡ before ++ (p ∷ after)
          → Fine (thread_move (cutting host) (length before + 1) p s)
      unfolding thread_move
      thread_move-Fine drawing e = good
      thread_move-Fine gone e = tt
      thread_move-Fine (drawn start) e = elim (Bool-cases (ltb s.ip_size (start + s.cur_rs))) [
        | inl over ↦ rw over good
        | inr inside ↦
            let few : length before + 1 ≤ n =
              omega (arith, inv.all, ap length e, length-append before (drawn start ∷ after)) in
            let (a, worked, next) =
              cutting-Separate (length before + 1) start s.cur_rs s.state.0 s.state.1 few
                (omega (arith, inv.size, ltb→le _ _ inside)) good in
            let ran : cutting host (length before + 1) start s.cur_rs s.ip_size s.state ≡ some a =
              ap (λ m. cutting host (length before + 1) start s.cur_rs m s.state) inv.size
              ∙ worked in
            rw (inside, ran) next
      ]

    reached-Good : (s : Round (World × (ℕ → Streams))) → Reaches s → Good s.state
    unfolding start_round
    reached-Good s starts = sep
    reached-Good s' (goes_on r (by_thread {s = s} before p p' after e run)) =
        subst (Fine before after s (reached-Drawn s r) (reached-Good s r)) run
          (thread_move-Fine before after s (reached-Drawn s r) (reached-Good s r) p e)
    reached-Good s' (goes_on r (joined {s = s} over next)) = reached-Good s r

    -- On a healthy machine, where the threads' output files differ from each other and from the input,
    -- with nothing read ahead or waiting at the start: in every reachable state of `thread` no move of a
    -- thread ends the program, whatever the order of the threads, and each thread still has its own
    -- output file, and the input unchanged in front of it.
    pub cutting_goes_on :
        (s : Round (World × (ℕ → Streams))) (before : List Place) (p : Place) (after : List Place)
        → Reaches s
        → s.threads ≡ before ++ (p ∷ after)
        → (thread_move (cutting host) (length before + 1) p s ≢ stopped)
          × Separate n c s.state.0 s.state.1
    cutting_goes_on s before p after r e = (
      λ h.
          subst (Fine before after s (reached-Drawn s r) (reached-Good s r)) h
            (thread_move-Fine before after s (reached-Drawn s r) (reached-Good s r) p e),
      reached-Good s r,
    )
