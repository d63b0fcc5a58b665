-- ===== src/Range/Increasing/Refine.antt =====
-- The loops of `range_increasing` compute what the search on byte strings does.
use diy_ddmin.Base.{
  ℕ, zero, suc, ◌+◌, ◌-◌, ◌≤◌, ◌<◌, ◌^◌, ◌≡◌, refl, sym, ap, subst, ◌∙◌, Bool, none, some, [],
  arith, Bool-cases, inl, inr, length, ltb, leb, leb→le, lt→ltb, Option-cases,
}
use mathlib.Core.Option.{some-injective}
use diy_ddmin.Base.Parts.{length-cut}
use diy_ddmin.Paths.{Bytes, FilePath, part_path}
use diy_ddmin.Paths.Apart.{length-part_path}
use diy_ddmin.Machine.{Run, Host, World, done, into_array, set_file}
use diy_ddmin.Machine.Healthy.{IsHealthy}
use diy_ddmin.Machine.Returns.{put-same, put-other}
use diy_ddmin.Stdio.{fopen_read, fopen_write, unchecked}
use diy_ddmin.Stdio.Writing.{sink, byte_count_file-length, fflush-nothing}
use diy_ddmin.Oracle.Verdict.{reproduces}
use diy_ddmin.Ddmin.Candidate.{Tried}
use diy_ddmin.Ddmin.Fresh.{Fresh, part_path-Fresh}
use diy_ddmin.Ddmin.Round.{start_of}
use diy_ddmin.Range.Increasing.{next_fail, Files, reopen, open_files, accept, begin_loop, rs_loop}
use diy_ddmin.Range.Increasing.Spec.{without, sweep, widen}
use diy_ddmin.Range.Increasing.Window.{Idle, test_window-Idle}

-- From `w` to `w'` only files were written whose numbers are `w.fail_no` or more.
pub record After (w w' : World) : Type 0 where
  pub kept : (q : FilePath) → Fresh w.fail_no q → w'.files q ≡ w.files q
  pub later : w.fail_no ≤ w'.fail_no

After-trans : {w w1 w2 : World} → After w w1 → After w1 w2 → After w w2
After-trans a b = record {
  kept =
      λ q f. b.kept q (record { apart = λ j h. f.apart j (omega (arith, a.later)) }) ∙ a.kept q f;
  later = omega (arith, a.later, b.later);
}

-- The loops may go on: the output has the number `fail_no`, and there are numbers for as many more
-- files as the input has bytes.
pub record Ready (c : Bytes) (f : Files) (w : World) : Type 0 where
  pub idle : Idle c f w
  pub mine : f.out_file ≡ part_path w.fail_no
  pub numbered : w.fail_no + length c < 2 ^ 31

-- A test has written only the output and what belongs to it.
Tried-After :
    {b : Bytes} {w w' : World} {out_file : FilePath}
    → out_file ≡ part_path w.fail_no
    → Tried out_file b w w'
    → After w w'
Tried-After {b} {w} {w'} e t =
    let t' = subst (λ o. Tried o b w w') e t in
    record {
      kept =
          λ q f. let a = f.apart w.fail_no (omega arith) in t'.others q a.no_file a.no_out a.no_err;
      later = omega (arith, t.fail_no);
    }

next_fail-runs :
    (w : World)
    → w.fail_no + 1 < 2 ^ 31
    → next_fail w ≡ done (part_path (w.fail_no + 1)) (record w { fail_no = w.fail_no + 1 })
unfolding next_fail into_array
next_fail-runs w h =
    let short : length (part_path (w.fail_no + 1)) < 512 =
      omega (arith, length-part_path (w.fail_no + 1) h) in
    rw (lt→ltb _ 512 short)

module _ {host : Host} {program_path : FilePath} {behave : Bytes → Run}
    (healthy : IsHealthy host program_path behave) (msg : Bytes) where
  abbrev fails : Bytes → Bool
  fails = reproduces behave msg

  -- What the two openings come to, for a file that is not one of the next outputs.
  module _ (p : FilePath) (c : Bytes) (w : World) (held : w.files p ≡ some c)
      (fresh : Fresh (w.fail_no + 1) p) (numbered : w.fail_no + 1 + length c < 2 ^ 31) where
    abbrev out : FilePath
    out = part_path (w.fail_no + 1)

    abbrev opened : World
    opened = set_file out (some []) (record w { fail_no = w.fail_no + 1 })

    abbrev files : Files
    files = record { input_path = p; out_file = out; in_fp = start_of p; out_fp = sink out 0 [] }

    pub opened-Ready : Ready c files opened
    opened-Ready =
        let apart = fresh.apart (w.fail_no + 1) (omega arith) in
        record {
          idle = record {
            held = put-other out (some []) w.files p apart.no_file ∙ held;
            reads = refl;
            empty = refl;
            off = 0;
            writes = refl;
            old = [];
            made = put-same out (some []) w.files;
            apart = apart;
            short = omega (arith, length-part_path (w.fail_no + 1) (omega arith));
          };
          mine = refl;
          numbered = numbered;
        }

    opened-After : After w opened
    opened-After = record {
      kept =
          λ q f. put-other out (some []) w.files q (f.apart (w.fail_no + 1) (omega arith)).no_file;
      later = omega arith;
    }

    reopen-runs : reopen host p w ≡ done files opened
    unfolding reopen fopen_read fopen_write unchecked
    reopen-runs = rw (held, fopen_read, next_fail-runs w (omega arith), healthy.creates)

    pub open_files-runs : open_files host p w ≡ done files opened
    unfolding open_files fopen_read fopen_write unchecked
    open_files-runs = rw (next_fail-runs w (omega arith), held, fopen_read, healthy.creates)

  -- A candidate that fails becomes the input.
  accept-Ready :
      (b c : Bytes) (f : Files) (w w1 : World)
      → Ready c f w
      → (f1 : Files) → Idle c f1 w1
      → f1.out_file ≡ f.out_file
      → Tried f.out_file b w w1
      → length b < length c
      → (f' : Files) × (w' : World) × (accept host f1 w1 ≡ done f' w') × Ready b f' w' × After w w'
  unfolding accept
  accept-Ready b c f w w1 ready f1 idle same tried less =
      let number : w1.fail_no ≡ w.fail_no = tried.fail_no in
      let mine : f1.out_file ≡ part_path w1.fail_no =
        same ∙ ready.mine ∙ ap part_path (sym number) in
      let held : w1.files f1.out_file ≡ some b = ap w1.files same ∙ tried.holds in
      let fresh : Fresh (w1.fail_no + 1) f1.out_file =
        subst (Fresh (w1.fail_no + 1)) (sym mine) (part_path-Fresh w1.fail_no) in
      let room : w1.fail_no + 1 + length b < 2 ^ 31 = omega (arith, ready.numbered) in
      (
        files f1.out_file b w1 held fresh room,
        opened f1.out_file b w1 held fresh room,
        rw (idle.writes, fflush-nothing) (reopen-runs f1.out_file b w1 held fresh room),
        opened-Ready f1.out_file b w1 held fresh room,
        After-trans (Tried-After ready.mine tried) (opened-After f1.out_file b w1 held fresh room),
      )

  abbrev Sweeps : (fuel rs begin : ℕ) → Files → World → Bytes → Type 0
  Sweeps fuel rs begin f w r =
      (f' : Files) × (w' : World) × (begin_loop host program_path msg fuel rs begin f w
        ≡ done f' w')
      × Ready r f' w'
      × After w w'

  -- All windows of one size.
  begin_loop-refines :
      (fuel rs begin : ℕ) (c r : Bytes) (f : Files) (w : World)
      → 1 ≤ rs
      → Ready c f w
      → sweep fails fuel rs begin c ≡ some r
      → Sweeps fuel rs begin f w r
  unfolding begin_loop sweep
  begin_loop-refines zero rs begin c r f w one ready h = cc
  begin_loop-refines (suc fuel) rs begin c r f w one ready h =
      let counted = byte_count_file-length f.input_path w ready.idle.held in
      elim (Bool-cases (leb (begin + rs) (length c))) [
        | inr over ↦
            let e : c ≡ r = some-injective c r (rw over at h) in
            (
              f,
              w,
              rw (counted, over),
              subst (λ d. Ready d f w) e ready,
              record { kept = λ q k. refl; later = omega arith },
            )
        | inl fits ↦
            let inside : begin + rs ≤ length c = leb→le _ _ fits in
            let (f1, w1, tested, tried, idle1, out1, in1) =
              test_window-Idle healthy msg rs begin c f w ready.idle inside in
            elim (Bool-cases (fails (without begin rs c))) [
              | inl bad ↦
                  let (f2, w2, accepted, ready2, after2) =
                    accept-Ready (without begin rs c) c f w w1 ready f1 idle1 out1 tried
                      (omega (arith, length-cut begin rs c inside)) in
                  let (f3, w3, rest, ready3, after3) =
                    begin_loop-refines fuel rs ((begin + 1) - rs) (without begin rs c) r f2 w2 one
                      ready2 (rw (fits, bad) at h) in
                  (
                    f3,
                    w3,
                    rw (counted, fits, tested, bad, accepted) rest,
                    ready3,
                    After-trans after2 after3,
                  )
              | inr good ↦
                  let ready1 : Ready c f1 w1 = record {
                    idle = idle1;
                    mine = out1 ∙ ready.mine ∙ ap part_path (sym tried.fail_no);
                    numbered = omega (arith, ready.numbered, tried.fail_no);
                  } in
                  let (f3, w3, rest, ready3, after3) =
                    begin_loop-refines fuel rs (begin + 1) c r f1 w1 one ready1
                      (rw (fits, good) at h) in
                  (
                    f3,
                    w3,
                    rw (counted, fits, tested, good) rest,
                    ready3,
                    After-trans (Tried-After ready.mine tried) after3,
                  )
            ]
      ]

  -- Windows of all sizes.
  pub rs_loop-refines :
      (limit fuel rs : ℕ) (c r : Bytes) (f : Files) (w : World)
      → 1 ≤ rs
      → Ready c f w
      → widen fails limit fuel rs c ≡ some r
      → (p : FilePath) × (w' : World) × (rs_loop host program_path msg limit fuel rs f w
          ≡ done p w')
        × (w'.files p ≡ some r)
        × After w w'
  unfolding rs_loop widen
  rs_loop-refines limit zero rs c r f w one ready h = cc
  rs_loop-refines limit (suc fuel) rs c r f w one ready h =
      let counted = byte_count_file-length f.input_path w ready.idle.held in
      elim (Bool-cases (ltb rs (length c))) [
        | inr over ↦
            let e : c ≡ r = some-injective c r (rw over at h) in
            (
              f.input_path,
              w,
              rw (counted, over),
              ready.idle.held ∙ ap some e,
              record { kept = λ q k. refl; later = omega arith },
            )
        | inl more ↦ elim (Option-cases (sweep fails limit rs 0 c)) [
          | inl stuck ↦ let e : none ≡ some r = rw (more, stuck) at h in cc
          | inr (d, swept) ↦
              let (f1, w1, run, ready1, after1) =
                begin_loop-refines limit rs 0 c d f w one ready swept in
              let (p, w2, rest, holds, after2) =
                rs_loop-refines limit fuel (rs + 1) d r f1 w1 (omega arith) ready1
                  (rw (more, swept) at h) in
              (p, w2, rw (counted, more, run) rest, holds, After-trans after1 after2)
        ]
      ]
