-- ===== src/Ddmin/Refine.antt =====
-- The outer loop computes what `reduce` does, on files.
use diy_ddmin.Base.{
  ℕ, zero, suc, ◌<◌, ◌≡◌, refl, sym, ap, subst, ◌∙◌, Bool, false, none, some, [], arith, Bool-cases,
  Option-cases, inl, inr, length, ltb, leb, ltb→lt, leb→lt,
}
use mathlib.Core.Option.{some-injective}
use diy_ddmin.Paths.{Bytes, FilePath, part_path}
use diy_ddmin.Machine.{Run, Host, World, done}
use diy_ddmin.Machine.Healthy.{IsHealthy}
use diy_ddmin.Stdio.{InStream}
use diy_ddmin.Stdio.Reading.{rest, ahead-nil}
use diy_ddmin.Stdio.Writing.{sink, byte_count_file-length}
use diy_ddmin.Oracle.Verdict.{reproduces}
use diy_ddmin.Ddmin.{subset_loop, complement_loop, ddmin_loop}
use diy_ddmin.Ddmin.Candidate.{Apart, Tried, Tried-trans}
use diy_ddmin.Ddmin.Spec.{first_part, first_cut, reduce}
use diy_ddmin.Ddmin.Spec.Cuts.{first_part-Smaller, first_cut-Smaller}
use diy_ddmin.Ddmin.Subsets.{Searched, subset_loop-Searched, Searched-hit, Searched-miss}
use diy_ddmin.Ddmin.Complements.{
  CutSearched, complement_loop-CutSearched, CutSearched-hit, CutSearched-miss,
}
use diy_ddmin.Ddmin.Round.{start_of, Opened, opened, after_hit, after_cut, after_none}
use diy_ddmin.Ddmin.Ready.{Reached, Ready, after_round, round_Reached, next_Ready, finer_Ready}

module _ {host : Host} {program_path : FilePath} {behave : Bytes → Run}
    (healthy : IsHealthy host program_path behave) (msg : Bytes) where
  abbrev fails : Bytes → Bool
  fails = reproduces behave msg

  -- One round of the loop is one round of `reduce`: both go on alike, or both end.
  data Advance (fuel n : ℕ) (p : FilePath) (c : Bytes) (w : World) : Type 0 where
    again :
        {n' : ℕ} {p' : FilePath} {c' : Bytes} {w' : World}
        → ddmin_loop host program_path msg (suc fuel) n p w
          ≡ ddmin_loop host program_path msg fuel n' p' w'
        → reduce fails (suc fuel) n c ≡ reduce fails fuel n' c'
        → Ready healthy msg fuel n' p' c' w'
        → ((r : Bytes) (p'' : FilePath) (w'' : World) → Reached r w' p'' w'' → Reached r w p'' w'')
        → Advance fuel n p c w
    final :
        {w' : World}
        → ddmin_loop host program_path msg (suc fuel) n p w ≡ done p w'
        → reduce fails (suc fuel) n c ≡ some c
        → Reached c w p w'
        → Advance fuel n p c w

  -- The loop over the parts, in the state of an opened round.
  parts :
      {fuel n : ℕ} {p : FilePath} {c : Bytes} {w w2 : World}
      → Ready healthy msg fuel n p c w
      → 1 < length c
      → (o : Opened host p c w w2)
      → Searched healthy msg (part_path w.file_no) o.short p w2 (first_part fails n c) (
          subset_loop host program_path msg n
            (length c)
            (part_path w.file_no)
            (start_of p)
            (sink (part_path w.file_no) 0 [])
            w2)
  parts {n} {p} {c} {w} {w2} ready big o =
      subset_loop-Searched healthy msg (part_path w.file_no) o.short n (length c) 0 (start_of p) w2
        [] c o.apart o.empty o.all refl (omega (arith, ready.size)) (ready.fit big)
        (λ z. absurd (omega (arith, ready.two)))

  -- The loop over the complements, where no part failed and all of the input was read.
  cuts :
      {fuel n : ℕ} {p : FilePath} {c last : Bytes} {w w2 w3 : World} (off : ℕ) (s : InStream)
      → Ready healthy msg fuel n p c w
      → 1 < length c
      → (o : Opened host p c w w2) → Tried (part_path w.file_no) last w2 w3
      → rest s w3 ≡ []
      → s.path ≡ p
      → CutSearched healthy msg (part_path w.file_no) o.short n w3 (first_cut fails n c 0) (
          complement_loop host program_path msg n n 0
            (length c)
            (part_path w.file_no)
            s
            (sink (part_path w.file_no) off [])
            w3)
  cuts {n} {p} {c} {last} {w} {w3 = w3} off s ready big o t read same =
      let a = o.apart in
      let held : w3.files p ≡ some c =
        t.others p a.no_file a.no_out a.no_err ∙ o.others p a.no_file ∙ ready.held in
      complement_loop-CutSearched healthy msg (part_path w.file_no) o.short n n 0 (length c) off s
        w3 last c (subst (Apart (part_path w.file_no)) (sym same) a) t.holds
        (ap w3.files same ∙ held) (ahead-nil s w3 read) refl (omega (arith, ready.size))
        (omega (arith, ready.two)) (omega (arith, ready.fit big))
        (omega (arith, ready.size, ready.two))

  module _ (fuel n : ℕ) (p : FilePath) (c : Bytes) (w : World)
      (ready : Ready healthy msg (suc fuel) n p c w) (long : leb (length c) 1 ≡ false) where
    part_fails : (d : Bytes) → first_part fails n c ≡ some d → Advance fuel n p c w
    unfolding reduce
    part_fails d found =
        let big : 1 < length c = leb→lt (length c) 1 long in
        let (w2, o) = opened healthy p c w ready.held ready.fresh (omega (arith, ready.numbered)) in
        let (s', off, w3, loop, t) =
          Searched-hit healthy msg (part_path w.file_no) o.short (parts ready big o) d found in
        let s = first_part-Smaller fails n c d ready.two (ready.fit big) found in
        again (after_hit host program_path msg fuel n p c w w2 ready.held long o loop)
          (rw (long, found)) (next_Ready healthy msg ready o t s.shorter (omega arith) (λ k. k))
          (λ r p'' w''. after_round healthy msg o t)

    no_part_fails : first_part fails n c ≡ none → Advance fuel n p c w
    unfolding reduce
    no_part_fails nothing =
        let big : 1 < length c = leb→lt (length c) 1 long in
        let (w2, o) = opened healthy p c w ready.held ready.fresh (omega (arith, ready.numbered)) in
        let (s', off, w3, last, loop, t, read, same) =
          Searched-miss healthy msg (part_path w.file_no) o.short (parts ready big o) nothing in
        let search = cuts off s' ready big o t read same in
        elim (Option-cases (first_cut fails n c 0)) [
          | inr (d, found) ↦
              let (s2, off2, w4, loop2, t2) =
                CutSearched-hit healthy msg (part_path w.file_no) o.short search d found in
              let s =
                first_cut-Smaller fails n n 0 c d (omega arith) (omega (arith, ready.fit big))
                  found in
              again (after_cut host program_path msg fuel n p c w w2 ready.held long o loop loop2)
                (rw (long, nothing, found))
                (next_Ready healthy msg ready o (Tried-trans t t2) s.shorter (omega arith)
                  (λ k. omega (arith, s.room)))
                (λ r p'' w''. after_round healthy msg o (Tried-trans t t2))
          | inl stuck ↦
              let (s2, off2, w4, last2, loop2, t2) =
                CutSearched-miss healthy msg (part_path w.file_no) o.short search stuck in
              elim (Bool-cases (ltb n (length c))) [
                | inl coarse ↦
                    again
                      (after_none host program_path msg fuel n p c w w2 ready.held long o loop loop2
                        ∙ rw coarse)
                      (rw (long, nothing, stuck, coarse))
                      (finer_Ready healthy msg ready o (Tried-trans t t2)
                        (ltb→lt n (length c) coarse))
                      (λ r p'' w''. after_round healthy msg o (Tried-trans t t2))
                | inr finest ↦
                    final {w' = w4}
                      (after_none host program_path msg fuel n p c w w2 ready.held long o loop loop2
                        ∙ rw finest)
                      (rw (long, nothing, stuck, finest))
                      (round_Reached healthy msg ready o (Tried-trans t t2))
              ]
        ]

  advance :
      (fuel n : ℕ) (p : FilePath) (c : Bytes) (w : World)
      → Ready healthy msg (suc fuel) n p c w
      → Advance fuel n p c w
  unfolding ddmin_loop reduce
  advance fuel n p c w ready = elim (Bool-cases (leb (length c) 1)) [
    | inl tiny ↦
        final {w' = w} (rw (byte_count_file-length p w ready.held, tiny)) (rw tiny)
          (record { holds = ready.held; kept = λ q f. refl })
    | inr long ↦ elim (Option-cases (first_part fails n c)) [
      | inr (d, found) ↦ part_fails fuel n p c w ready long d found
      | inl nothing ↦ no_part_fails fuel n p c w ready long nothing
    ]
  ]

  abbrev Computes : ℕ → ℕ → FilePath → Bytes → World → Type 0
  Computes fuel n p r w =
      (p' : FilePath) × (w' : World) × (ddmin_loop host program_path msg fuel n p w ≡ done p' w')
      × Reached r w p' w'

  -- On a healthy machine, where the search on byte strings, with as much fuel, gives `r`, the outer loop returns a file that
  -- holds `r`, and leaves every file as it was whose name is none of its own candidates or outputs:
  -- for an input of at most 4096 bytes whose own name is none of them either, at least two parts,
  -- no more parts than bytes, and file numbers that stay below 2 ^ 31.
  pub ddmin_loop-refines :
      (fuel n : ℕ) (p : FilePath) (c r : Bytes) (w : World)
      → Ready healthy msg fuel n p c w
      → reduce fails fuel n c ≡ some r
      → Computes fuel n p r w
  unfolding reduce
  ddmin_loop-refines zero n p c r w ready h = cc
  ddmin_loop-refines (suc fuel) n p c r w ready h = elim (advance fuel n p c w ready) [
    | again {n' = n'} {p' = p'} {c' = c'} {w' = w'} run same next back ↦
        let (p'', w'', run', reached) = ddmin_loop-refines fuel n' p' c' r w' next (sym same ∙ h) in
        (p'', w'', run ∙ run', back r p'' w'' reached)
    | final {w' = w'} run same reached ↦
        (p, w', run, subst (λ b. Reached b w p w') (some-injective c r (sym same ∙ h)) reached)
  ]
