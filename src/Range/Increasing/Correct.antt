-- ===== src/Range/Increasing/Correct.antt =====
-- `range_increasing` as a whole: it ends, and what the file that it returns holds.
use diy_ddmin.Base.{ℕ, ◌+◌, ◌*◌, ◌<◌, ◌^◌, ◌≡◌, ◌∙◌, some, arith, length}
use diy_ddmin.Paths.{Bytes, FilePath}
use diy_ddmin.Machine.{Run, Host, World, done}
use diy_ddmin.Machine.Healthy.{IsHealthy}
use diy_ddmin.Oracle.Verdict.{reproduces}
use diy_ddmin.Ddmin.Fresh.{Fresh}
use diy_ddmin.Range.Increasing.{range_increasing}
use diy_ddmin.Range.Increasing.Spec.{widen}
use diy_ddmin.Range.Increasing.Minimal.{IsFound, widen_ends, IsMonotone, IsMinimal, widen-IsMinimal}
use diy_ddmin.Range.Increasing.Refine.{opened-Ready, open_files-runs, rs_loop-refines}

module _ {host : Host} {program_path : FilePath} {behave : Bytes → Run}
    (healthy : IsHealthy host program_path behave) (msg : Bytes) (fuel : ℕ) (path : FilePath)
    (c : Bytes) (w : World) (held : w.files path ≡ some c) (fresh : Fresh (w.fail_no + 1) path)
    (numbered : w.fail_no + 1 + length c < 2 ^ 31) (enough : 2 * length c < fuel) where
  range_increasing-widen :
      (r : Bytes)
      → widen (reproduces behave msg) fuel fuel 1 c ≡ some r
      → (p' : FilePath) × (w' : World) × (range_increasing host program_path msg fuel path w
          ≡ done p' w')
        × (w'.files p' ≡ some r)
        × (w'.files path ≡ some c)
  unfolding range_increasing
  range_increasing-widen r h =
      let ready = opened-Ready healthy msg path c w held fresh numbered in
      let (p', w', run, holds, after) =
        rs_loop-refines healthy msg fuel fuel 1 c r _ _ (omega arith) ready h in
      (
        p',
        w',
        rw (open_files-runs healthy msg path c w held fresh numbered) run,
        holds,
        after.kept path fresh ∙ ready.idle.held,
      )

  -- On a healthy machine, for an input that is none of the files which the run makes, and with fuel
  -- for more than two rounds a byte, `range_increasing` returns a file that holds a subsequence of
  -- the input. It is the input itself, or it still reproduces the error. The input file is as
  -- before.
  pub range_increasing-reduces :
      (p' : FilePath) × (w' : World) × (r : Bytes) × (range_increasing host program_path msg fuel
          path w
        ≡ done p' w')
      × (w'.files p' ≡ some r)
      × IsFound (reproduces behave msg) c r
      × (w'.files path ≡ some c)
  range_increasing-reduces =
      let (r, found, is_found) =
        widen_ends (reproduces behave msg) fuel fuel 1 c (omega arith) enough (omega arith) in
      let (p', w', run, holds, kept) = range_increasing-widen r found in
      (p', w', r, run, holds, is_found, kept)

  -- On a healthy machine, for an input of more than one byte that is none of the files which the run
  -- makes, with fuel for more than two rounds a byte, and for an error that every text reproduces
  -- of which a subsequence does: the file that `range_increasing` returns holds a text of which no
  -- proper subsequence reproduces the error.
  pub range_increasing-IsMinimal :
      IsMonotone (reproduces behave msg)
      → 1 < length c
      → (p' : FilePath) × (w' : World) × (r : Bytes) × (range_increasing host program_path msg fuel
            path w
          ≡ done p' w')
        × (w'.files p' ≡ some r)
        × IsMinimal (reproduces behave msg) r
  range_increasing-IsMinimal monotone two =
      let (r, found, is_found) =
        widen_ends (reproduces behave msg) fuel fuel 1 c (omega arith) enough (omega arith) in
      let (p', w', run, holds, kept) = range_increasing-widen r found in
      (
        p',
        w',
        r,
        run,
        holds,
        widen-IsMinimal (reproduces behave msg) monotone fuel fuel c r two enough (omega arith)
            found,
      )
