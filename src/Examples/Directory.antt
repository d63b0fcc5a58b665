-- ===== src/Examples/Directory.antt =====
-- What `ddmin_dir` puts in the place of the file to reduce.
use diy_ddmin.Base.{◌≡◌, refl, none, some, arith}
use diy_ddmin.Paths.{codes, bytes_eq}
use diy_ddmin.Machine.{World, done, put}
use diy_ddmin.Stdio.Writing.{Stored}
use diy_ddmin.DdminDir.{test_input, stage}
use diy_ddmin.DdminDir.Stage.{stage-Stored}
use diy_ddmin.Examples.Lab.{lab, desk}

abbrev folder : World
folder = record (desk (codes "x")) {
  files =
      put (codes "d/test_input") (some (codes "old"))
        (put (codes "c.part") (some (codes "new")) (λ q. none));
}

stage-Stored_example :
    (w : World) × (stage lab (codes "c.part") (codes "d") folder ≡ done tt w)
    × Stored (test_input (codes "d")) (codes "new") folder w
unfolding put bytes_eq test_input
stage-Stored_example =
    stage-Stored lab (codes "c.part") (codes "d") (codes "new") (codes "old") folder (omega arith)
      (λ e. cc) refl refl refl
