-- ===== src/Ddmin/Overflow.antt =====
-- An input of more than 4096 bytes: the first complement skips a part that its array cannot hold.
use diy_ddmin.Base.{
  ℕ, suc, ◌+◌, ◌-◌, ◌≤◌, ◌<◌, ◌^◌, ◌≡◌, refl, ap, ◌∙◌, false, none, some, [], arith, length, take,
  drop, leb, Bool, take-all,
}
use diy_ddmin.Paths.{Bytes, FilePath, part_path}
use diy_ddmin.Machine.{Run, Host, World, done, fault, buffer_overflow}
use diy_ddmin.Machine.Healthy.{IsHealthy}
use diy_ddmin.Stdio.{InStream, rewind_in, unchecked, copy_bytes}
use diy_ddmin.Stdio.Reading.{rest, ahead-nil, contents-some}
use diy_ddmin.Stdio.Writing.{sink, byte_count_file-length}
use diy_ddmin.Oracle.Verdict.{reproduces}
use diy_ddmin.Ddmin.{complement_loop, ddmin_loop}
use diy_ddmin.Ddmin.Candidate.{exact-part_size}
use diy_ddmin.Ddmin.Spec.{first_part, part_size}
use diy_ddmin.Ddmin.Spec.Cuts.{part_size-one, part_size_bounds}
use diy_ddmin.Ddmin.Skip.{skip_part-overflows, part_size-overflows}
use diy_ddmin.Ddmin.Fresh.{Fresh}
use diy_ddmin.Ddmin.Round.{start_of, Opened, opened, loop_of_parts, loop_of_cuts}
use diy_ddmin.Ddmin.Subsets.{Searched-miss, subset_loop-Searched}

-- If neither half fails, the search over two parts fails.
pub first_part-halves :
    (fails : Bytes → Bool) (c : Bytes)
    → fails (take (part_size (length c) 2) c) ≡ false
    → fails (drop (part_size (length c) 2) c) ≡ false
    → first_part fails 2 c ≡ none
unfolding first_part
first_part-halves fails c left right =
    let tail = drop (part_size (length c) 2) c in
    let whole : take (part_size (length tail) 1) tail ≡ tail =
      take-all (part_size (length tail) 1) tail (omega (arith, part_size-one (length tail))) in
    rw (left, whole, right)

module _ {host : Host} {program_path : FilePath} {behave : Bytes → Run}
    (healthy : IsHealthy host program_path behave) (msg : Bytes) where
  -- The first round of the complements, over two parts.
  cuts-overflow :
      (s : InStream) (w : World) (c : Bytes) (out_file : FilePath) (off : ℕ)
      → w.files s.path ≡ some c
      → s.ahead ≡ []
      → 4096 < length c
      → length c < 2 ^ 24
      → loop_of_cuts host program_path msg 2 c out_file s off w ≡ fault buffer_overflow
  unfolding complement_loop copy_bytes
  cuts-overflow s w c out_file off held empty large small =
      let a = length c - 0 in
      let whole : rest (rewind_in s) w ≡ c = rw (empty, contents-some s.path w held) in
      let bounds : (1 ≤ part_size a 2) × (part_size a 2 + (2 - 1) ≤ a) =
        part_size_bounds a 2 (omega arith) (omega arith) in
      rw (
        exact-part_size healthy a 2 (omega arith) (omega arith),
        skip_part-overflows host (rewind_in s) (part_size a 2) w (omega (arith, ap length whole))
            (part_size-overflows a (omega arith)),
      )

  pub ddmin_loop-overflows :
      (fuel : ℕ) (p : FilePath) (c : Bytes) (w : World)
      → w.files p ≡ some c
      → Fresh w.file_no p
      → w.file_no < 2 ^ 31
      → 4096 < length c
      → length c < 2 ^ 24
      → first_part (reproduces behave msg) 2 c ≡ none
      → ddmin_loop host program_path msg (suc fuel) 2 p w ≡ fault buffer_overflow
  unfolding ddmin_loop unchecked
  ddmin_loop-overflows fuel p c w held fresh numbered large small neither =
      let (w2, o) = opened healthy p c w held fresh numbered in
      let (s', off, w3, last, loop, t, read, same) =
        Searched-miss healthy msg (part_path w.file_no) o.short
          (subset_loop-Searched healthy msg (part_path w.file_no) o.short 2 (length c) 0
            (start_of p) w2 [] c o.apart o.empty o.all refl small (omega arith)
            (λ z. absurd (omega arith)))
          neither in
      overflow_of w2 o s' off w3 loop (
        cuts-overflow s' w3 c (part_path w.file_no) off
          (ap w3.files same
            ∙ t.others p o.apart.no_file o.apart.no_out o.apart.no_err
            ∙ o.others p o.apart.no_file
            ∙ held)
          (ahead-nil s' w3 read) large small)
    where
      long : leb (length c) 1 ≡ false
      long = ground arith

      overflow_of :
          (w2 : World)
          → Opened host p c w w2
          → (s' : InStream) (off : ℕ) (w3 : World)
          → loop_of_parts host program_path msg 2 c (part_path w.file_no) p w2
            ≡ done (false, s', sink (part_path w.file_no) off []) w3
          → loop_of_cuts host program_path msg 2 c (part_path w.file_no) s' off w3
            ≡ fault buffer_overflow
          → ddmin_loop host program_path msg (suc fuel) 2 p w ≡ fault buffer_overflow
      overflow_of w2 o s' off w3 loop loop2 =
          rw (byte_count_file-length p w held, long, o.opens, o.numbers, o.creates, loop, loop2)
