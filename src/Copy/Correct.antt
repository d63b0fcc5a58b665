-- ===== src/Copy/Correct.antt =====
-- What `copy` leaves in the new file.
use diy_ddmin.Base.{
  ℕ, zero, suc, ◌≤◌, ◌≡◌, refl, sym, ap, ◌∙◌, true, none, some, [], ◌∷◌, ◌++◌, arith, length,
  length-drop, take, drop, take-append-drop, append_assoc, append-nil,
}
use diy_ddmin.Paths.{Bytes, FilePath}
use diy_ddmin.Machine.{Host, World, done, exists, set_file}
use diy_ddmin.Stdio.Reading.{contents-some}
use diy_ddmin.Stdio.Writing.{Stored, set_file-Stored, Stored-trans}
use diy_ddmin.Copy.{copy_blocks, copy}

-- The blocks are written behind what is there.
copy_blocks-Stored :
    (fuel : ℕ) (left b : Bytes) (dst : FilePath) (w : World)
    → length left ≤ fuel
    → w.files dst ≡ some b
    → (w' : World) × (copy_blocks fuel left dst w ≡ done tt w') × Stored dst (b ++ left) w w'
unfolding copy_blocks
copy_blocks-Stored fuel [] b dst w enough held = (
  w,
  refl,
  record {
    holds = held ∙ ap some (sym (append-nil b));
    others = λ q ne. refl;
    file_no = refl;
    fail_no = refl;
  },
)
copy_blocks-Stored zero (c ∷ left) b dst w enough held = absurd (omega arith)
copy_blocks-Stored (suc fuel) (c ∷ left) b dst w enough held =
    let all : Bytes = c ∷ left in
    let b' : Bytes = b ++ take 1024 all in
    let same = contents-some dst w held in
    let st = set_file-Stored dst b' w in
    let shorter : length (drop 1024 all) ≤ fuel = omega (arith, length-drop 1024 all) in
    let (w', run, st') = copy_blocks-Stored fuel (drop 1024 all) b' dst _ shorter st.holds in
    let joined : b' ++ drop 1024 all ≡ b ++ all =
      append_assoc b (take 1024 all) (drop 1024 all)
      ∙ ap (λ r. b ++ r) (take-append-drop 1024 all) in
    (
      w',
      ap (λ k. copy_blocks fuel (drop 1024 all) dst (set_file dst (some (k ++ take 1024 all)) w))
            same
          ∙ run,
      rw joined at (Stored-trans st st'),
    )

-- A copy of an existing file to a new name that can be created ends, with the same bytes in the new
-- file and every other file as it was.
pub copy-Stored :
    (host : Host) (src dst : FilePath) (c : Bytes) (w : World)
    → w.files src ≡ some c
    → w.files dst ≡ none
    → host.can_create dst ≡ true
    → (w' : World) × (copy host src dst w ≡ done tt w') × Stored dst c w w'
unfolding copy
copy-Stored host src dst c w held new creates =
    let st = set_file-Stored dst [] w in
    let (w', run, st') = copy_blocks-Stored (length c) c [] dst _ (omega arith) st.holds in
    (w', rw (held, copy, exists, new, creates) run, Stored-trans st st')
