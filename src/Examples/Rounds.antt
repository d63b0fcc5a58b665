-- ===== src/Examples/Rounds.antt =====
-- The loops of one round on a concrete machine.
use diy_ddmin.Base.{◌<◌, ◌≡◌, refl, some, [], arith, length}
use diy_ddmin.Paths.{FilePath, codes, bytes_eq, part_path}
use diy_ddmin.Machine.{World, done, put, set_file}
use diy_ddmin.Stdio.{contents}
use diy_ddmin.Stdio.Writing.{sink}
use diy_ddmin.Ddmin.{ddmin_loop, subset_loop, complement_loop}
use diy_ddmin.Oracle.Search.{prints}
use diy_ddmin.Oracle.Verdict.{reproduces}
use diy_ddmin.Ddmin.Candidate.{Apart}
use diy_ddmin.Ddmin.Spec.{first_part, first_cut, reduce, part_size}
use diy_ddmin.Ddmin.Ready.{Reached}
use diy_ddmin.Ddmin.Refine.{ddmin_loop-refines}
use diy_ddmin.Ddmin.Subsets.{Searched, subset_loop-Searched}
use diy_ddmin.Ddmin.Complements.{CutSearched, complement_loop-CutSearched}
use diy_ddmin.Examples.Lab.{
  lab, lab-IsHealthy, behave, program_path, input_path, message, desk, input_path-Fresh,
}
use diy_ddmin.Examples.Streams.{at_start}

-- A candidate file is there, and empty.
abbrev opened_desk : World
opened_desk = set_file (part_path 0) (some []) (desk (codes "abxd"))

candidate-Apart : Apart (part_path 0) input_path
candidate-Apart = (input_path-Fresh 0).apart 0 (omega arith)

short_name : length (part_path 0) < 240
unfolding part_path
short_name = omega arith

subset_loop-Searched_example :
    Searched
      (lab-IsHealthy program_path)
      message
      (part_path 0)
      short_name
      input_path
      opened_desk
      (first_part (reproduces behave message) 2 (codes "abxd"))
      (subset_loop lab program_path message 2 4
        (part_path 0)
        at_start
        (sink (part_path 0) 0 [])
        opened_desk)
unfolding put bytes_eq contents part_path
subset_loop-Searched_example =
    subset_loop-Searched (lab-IsHealthy program_path) message (part_path 0) short_name 2 4 0
      at_start opened_desk [] (codes "abxd") candidate-Apart refl refl refl (omega arith)
      (omega arith) (λ e. cc)

complement_loop-CutSearched_example :
    CutSearched
      (lab-IsHealthy program_path)
      message
      (part_path 0)
      short_name
      2
      opened_desk
      (first_cut (reproduces behave message) 2 (codes "abxd") 0)
      (complement_loop lab program_path message 2 2 0 4
        (part_path 0)
        at_start
        (sink (part_path 0) 0 [])
        opened_desk)
unfolding put bytes_eq contents part_path
complement_loop-CutSearched_example =
    complement_loop-CutSearched (lab-IsHealthy program_path) message (part_path 0) short_name 2 2 0
      4 0 at_start opened_desk [] (codes "abxd") candidate-Apart refl refl refl refl (omega arith)
      (omega arith) (omega arith) (omega arith)

ddmin_loop-refines_example :
    (p' : FilePath) × (w' : World) × (ddmin_loop lab program_path message 30 2 input_path
        (desk (codes "abxd"))
      ≡ done p' w')
    × Reached (codes "x") (desk (codes "abxd")) p' w'
unfolding put bytes_eq reduce first_part reproduces part_size prints
ddmin_loop-refines_example =
    ddmin_loop-refines (lab-IsHealthy program_path) message 30 2 input_path (codes "abxd")
      (codes "x") (desk (codes "abxd"))
      (record {
        held = refl;
        fresh = input_path-Fresh 0;
        numbered = omega arith;
        size = omega arith;
        two = omega arith;
        fit = λ h. omega arith;
      })
      refl
