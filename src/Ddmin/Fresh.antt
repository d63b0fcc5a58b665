-- ===== src/Ddmin/Fresh.antt =====
-- File names that no later round of `ddmin` writes to.
use diy_ddmin.Base.{ℕ, ◌+◌, ◌≤◌, ◌<◌, ◌^◌, ◌≡◌, sym, arith, length, lt→ltb}
use diy_ddmin.Paths.{FilePath, part_path}
use diy_ddmin.Paths.Apart.{part_path_injective, part-ne-stdout, part-ne-stderr, length-part_path}
use diy_ddmin.Machine.{World, done, into_array}
use diy_ddmin.Ddmin.{next_part}
use diy_ddmin.Ddmin.Candidate.{Apart}

-- No candidate from number `k` on, and no output of a test on it, has this name.
pub record Fresh (k : ℕ) (p : FilePath) : Type 0 where
  pub apart : (j : ℕ) → k ≤ j → Apart (part_path j) p

pub Fresh-suc : (k : ℕ) (p : FilePath) → Fresh k p → Fresh (k + 1) p
Fresh-suc k p f = record { apart = λ j h. f.apart j (omega arith) }

-- The file of one round is none of those of the later rounds.
pub part_path-Fresh : (k : ℕ) → Fresh (k + 1) (part_path k)
part_path-Fresh k = record {
  apart = λ j h. record {
    no_file = λ e. absurd (omega (arith, part_path_injective j k e));
    no_out = λ e. part-ne-stdout k j (sym e);
    no_err = λ e. part-ne-stderr k j (sym e);
  };
}

pub next_part-runs :
    (w : World)
    → w.file_no < 2 ^ 31
    → next_part w ≡ done (part_path w.file_no) (record w { file_no = w.file_no + 1 })
unfolding next_part into_array
next_part-runs w h =
    let short : length (part_path w.file_no) < 256 = omega (arith, length-part_path w.file_no h) in
    rw (lt→ltb _ 256 short)
