-- ===== src/DdminDir/Stage.antt =====
-- What the program under test finds in its directory, and what is missing.
use diy_ddmin.Base.{
  ℕ, suc, ◌<◌, ◌≡◌, ◌≢◌, ◌∙◌, ◌⊎◌, inl, inr, true, none, some, arith, length, lt→ltb,
}
use diy_ddmin.Paths.{Bytes, FilePath}
use diy_ddmin.Machine.{Host, World, done, exited, exists, into_array, set_file, byte_count_file}
use diy_ddmin.Machine.Returns.{put-same, put-other}
use diy_ddmin.Stdio.Writing.{Stored}
use diy_ddmin.Copy.Correct.{copy-Stored}
use diy_ddmin.DdminDir.{dir_input, test_input, remove_old, stage, ddmin_dir, ddmin_dir_loop}

module _ (host : Host) (out_file input_dir : FilePath) (b old : Bytes) (w : World)
    (short : length (test_input input_dir) < 256) (apart : test_input input_dir ≢ out_file)
    (creates : host.can_create (test_input input_dir) ≡ true)
    (made : w.files out_file ≡ some b) where
  -- Where the directory has a test input, whose name is shorter than 256 bytes and which can be created
  -- again, and another file holds the candidate: the candidate replaces the test input, and every
  -- other file is as it was.
  pub stage-Stored :
      w.files (test_input input_dir) ≡ some old
      → (w' : World) × (stage host out_file input_dir w ≡ done tt w')
        × Stored (test_input input_dir) b w w'
  unfolding stage into_array remove_old
  stage-Stored present =
      let path = test_input input_dir in
      let w1 = set_file path none w in
      let (w', copied, st) =
        copy-Stored host out_file path b w1 (put-other path none w.files out_file apart ∙ made)
          (put-same path none w.files) creates in
      (
        w',
        rw (lt→ltb _ 256 short, remove_old, present) copied,
        record {
          holds = st.holds;
          others = λ q ne. st.others q ne ∙ put-other path none w.files q ne;
          file_no = st.file_no;
          fail_no = st.fail_no;
        },
      )

-- If the program, the directory or the file to reduce is missing, the run ends with status 1 and no
-- file has changed, for a name that fits its array.
ddmin_dir-missing :
    (host : Host) (program_path : FilePath) (msg : Bytes) (input_dir : FilePath) (exe_dir : Bytes)
    (fuel : ℕ) (w : World)
    → length (dir_input exe_dir) < 256
    → (w.files program_path ≡ none)
      ⊎ (w.files input_dir ≡ none)
      ⊎ (w.files (dir_input exe_dir) ≡ none)
    → ddmin_dir host program_path msg input_dir exe_dir (suc fuel) w ≡ exited 1 w
unfolding ddmin_dir ddmin_dir_loop into_array byte_count_file
ddmin_dir-missing host program_path msg input_dir exe_dir fuel w short (inl h) = rw (h, exists)
ddmin_dir-missing host program_path msg input_dir exe_dir fuel w short (inr (inl h)) = ground arith
ddmin_dir-missing host program_path msg input_dir exe_dir fuel w short (inr (inr h)) =
    ground (arith, lt→ltb _ 256 short)
