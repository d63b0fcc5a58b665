-- ===== src/Copy.antt =====
-- `copy` of src/ddmin.c: a new file with the bytes of another, by blocks of 1024 bytes.
pub mod Correct
use diy_ddmin.Base.{
  ℕ, zero, suc, ◌+◌, ◌≡◌, Bool, true, false, Option, none, some, List, [], ◌∷◌, ◌++◌, if◌then◌else◌,
  take, drop, length,
}
use diy_ddmin.Paths.{Bytes, FilePath}
use diy_ddmin.Machine.{Host, World, Outcome, done, exited, out_of_fuel, M, set_file, exists}
use diy_ddmin.Stdio.{contents}

-- `while ((n = read(src_fd, buf, 1024)) > 0)`, over what the source file has left. A block that is
-- read is written behind the last one.
unfoldable pub copy_blocks : (fuel : ℕ) → Bytes → FilePath → M (Unit {0})
copy_blocks fuel [] dst w = done tt w
copy_blocks zero (c ∷ left) dst w = out_of_fuel
copy_blocks (suc fuel) (c ∷ left) dst w =
    copy_blocks fuel (drop 1024 (c ∷ left)) dst
      (set_file dst (some (contents dst w ++ take 1024 (c ∷ left))) w)

unfoldable pub copy : Host → (src dst : FilePath) → M (Unit {0})
copy host src dst w = elim (w.files src) [
  | none ↦ exited 1 w
  | some c ↦
      if exists dst w
      then exited 1 w
      else if host.can_create dst
      then copy_blocks (length c) c dst (set_file dst (some []) w)
      else exited 1 w
]
