-- ===== src/Ddmin/Correct.antt =====
-- `ddmin` as a whole: what it returns, and where it goes wrong.
use diy_ddmin.Base.{
  ℕ, suc, ◌+◌, ◌≤◌, ◌<◌, ◌^◌, ◌≡◌, ◌⊎◌, inl, inr, ◌∙◌, false, none, some, arith, length, take, drop,
  lt→ltb,
}
use diy_ddmin.Paths.{Bytes, FilePath}
use diy_ddmin.Machine.{Run, Host, World, done, exited, fault, buffer_overflow, exists, into_array}
use diy_ddmin.Machine.Healthy.{IsHealthy}
use diy_ddmin.Oracle.Verdict.{reproduces}
use diy_ddmin.Ddmin.{ddmin, ddmin_loop}
use diy_ddmin.Ddmin.Spec.{part_size}
use diy_ddmin.Ddmin.Overflow.{first_part-halves, ddmin_loop-overflows}
use diy_ddmin.Ddmin.Spec.Reduced.{IsReduced, rounds_for, reduce-Reduces}
use diy_ddmin.Ddmin.Fresh.{Fresh}
use diy_ddmin.Ddmin.Ready.{Ready}
use diy_ddmin.Ddmin.Refine.{ddmin_loop-refines}

-- If the program or the input is missing, the run ends with status 1 and no file has changed.
pub ddmin-missing :
    (host : Host) (program_path : FilePath) (msg : Bytes) (fuel : ℕ) (path : FilePath) (w : World)
    → (w.files program_path ≡ none) ⊎ (w.files path ≡ none)
    → ddmin host program_path msg fuel path w ≡ exited 1 w
unfolding ddmin
ddmin-missing host program_path msg fuel path w (inl h) = rw (h, exists)
ddmin-missing host program_path msg fuel path w (inr h) = ground arith

module _ {host : Host} {program_path : FilePath} {behave : Bytes → Run}
    (healthy : IsHealthy host program_path behave) (msg : Bytes) (path : FilePath)
    (c program : Bytes) (w : World) (installed : w.files program_path ≡ some program)
    (held : w.files path ≡ some c) (named : length path < 256) where
  ddmin-starts :
      (fuel : ℕ)
      → ddmin host program_path msg fuel path w ≡ ddmin_loop host program_path msg fuel 2 path w
  unfolding ddmin into_array
  ddmin-starts fuel = rw (installed, held, lt→ltb (length path) 256 named, exists)

  -- On a healthy machine, for an input of at most 4096 bytes with a name shorter than 256 bytes that
  -- is none of the files which `ddmin` makes, and with fuel for s * s + (s - 2) rounds on s bytes,
  -- `ddmin` returns a file that holds a subsequence of the input. It is the input itself, or it
  -- still reproduces the error; and if it has more than one byte, no byte of it can be taken out
  -- alone so that the rest reproduces the error. The input file is as before.
  pub ddmin-reduces :
      (fuel : ℕ)
      → length c ≤ 4096
      → Fresh w.file_no path
      → rounds_for (length c) 2 < fuel
      → w.file_no + fuel < 2 ^ 31
      → (p' : FilePath) × (w' : World) × (r : Bytes) × (ddmin host program_path msg fuel path w
          ≡ done p' w')
        × (w'.files p' ≡ some r)
        × IsReduced (reproduces behave msg) c r
        × (w'.files path ≡ some c)
  ddmin-reduces fuel size fresh enough numbered =
      let (r, run, reduced) =
        reduce-Reduces (reproduces behave msg) fuel 2 c (omega arith) (λ h. h) enough in
      let ready : Ready healthy msg fuel 2 path c w = record {
        held = held;
        fresh = fresh;
        numbered = numbered;
        size = size;
        two = omega arith;
        fit = λ h. h;
      } in
      let (p', w', loop, reached) = ddmin_loop-refines healthy msg fuel 2 path c r w ready run in
      (p', w', r, ddmin-starts fuel ∙ loop, reached.holds, reduced, reached.kept path fresh ∙ held)

  -- On a healthy machine with the program in place, for an input of more than 4096 and less than 2 ^ 24
  -- bytes neither half of which reproduces the error, whose name is shorter than 256 bytes and none
  -- of the names that `ddmin` gives to its candidates and their outputs, and with `file_no` below
  -- 2 ^ 31: `ddmin` writes past the end of an array in its first round.
  pub ddmin-overflows :
      (fuel : ℕ)
      → 4096 < length c
      → length c < 2 ^ 24
      → Fresh w.file_no path
      → w.file_no < 2 ^ 31
      → reproduces behave msg (take (part_size (length c) 2) c) ≡ false
      → reproduces behave msg (drop (part_size (length c) 2) c) ≡ false
      → ddmin host program_path msg (suc fuel) path w ≡ fault buffer_overflow
  ddmin-overflows fuel large small fresh numbered left right =
      ddmin-starts (suc fuel)
      ∙ ddmin_loop-overflows healthy msg fuel path c w held fresh numbered large small
          (first_part-halves (reproduces behave msg) c left right)
