-- ===== src/Ddmin/Round.antt =====
-- One round of the outer loop: how it begins, and where it leads.
use diy_ddmin.Base.{
  ℕ, suc, ◌+◌, ◌*◌, ◌<◌, ◌^◌, ◌≡◌, ◌≢◌, refl, ◌∙◌, Bool, true, false, Option, none, some, [], arith,
  min, length, ltb, leb, if◌then◌else◌,
}
use diy_ddmin.Paths.{Bytes, FilePath, part_path}
use diy_ddmin.Paths.Apart.{length-part_path}
use diy_ddmin.Machine.{Run, Host, World, Outcome, done, pure, set_file}
use diy_ddmin.Machine.Healthy.{IsHealthy}
use diy_ddmin.Machine.Returns.{put-same, put-other}
use diy_ddmin.Stdio.{InStream, OutStream, fopen_read, fopen_write, unchecked}
use diy_ddmin.Stdio.Reading.{rest, contents-some}
use diy_ddmin.Stdio.Writing.{sink, byte_count_file-length, fflush-nothing}
use diy_ddmin.Ddmin.{open_input, next_part, subset_loop, complement_loop, ddmin_loop}
use diy_ddmin.Ddmin.Candidate.{Apart}
use diy_ddmin.Ddmin.Fresh.{Fresh, next_part-runs}

abbrev pub start_of : FilePath → InStream
start_of p = record { path = p; off = 0; ahead = [] }

module _ (host : Host) where
  -- The state in which the loops over parts and complements start.
  pub record Opened (p : FilePath) (c : Bytes) (w w2 : World) : Type 0 where
    pub opens : open_input p w ≡ done (start_of p) w
    pub numbers : next_part w ≡ done (part_path w.file_no) (record w { file_no = w.file_no + 1 })
    pub creates :
        fopen_write host (part_path w.file_no) (record w { file_no = w.file_no + 1 })
        ≡ done (some (sink (part_path w.file_no) 0 [])) w2
    pub empty : w2.files (part_path w.file_no) ≡ some []
    pub others : (q : FilePath) → part_path w.file_no ≢ q → w2.files q ≡ w.files q
    pub counted : w2.file_no ≡ w.file_no + 1
    pub apart : Apart (part_path w.file_no) p
    pub short : length (part_path w.file_no) < 240
    pub all : rest (start_of p) w2 ≡ c

module _ {host : Host} {program_path : FilePath} {behave : Bytes → Run}
    (healthy : IsHealthy host program_path behave) where
  pub opened :
      (p : FilePath) (c : Bytes) (w : World)
      → w.files p ≡ some c
      → Fresh w.file_no p
      → w.file_no < 2 ^ 31
      → (w2 : World) × Opened host p c w w2
  unfolding open_input fopen_read fopen_write
  opened p c w held fresh small =
      let out = part_path w.file_no in
      let apart = fresh.apart w.file_no (omega arith) in
      let w1 = record w { file_no = w.file_no + 1 } in
      let w2 = set_file out (some []) w1 in
      (
        w2,
        record {
          opens = rw (held, fopen_read);
          numbers = next_part-runs w small;
          creates = rw healthy.creates;
          empty = put-same out (some []) w.files;
          others = λ q ne. put-other out (some []) w.files q ne;
          counted = refl;
          apart = apart;
          short = omega (arith, length-part_path w.file_no small);
          all = contents-some p w2 (put-other out (some []) w.files p apart.no_file ∙ held);
        },
      )

-- The two loops of a round.
module _ (host : Host) (program_path : FilePath) (msg : Bytes) (n : ℕ) (c : Bytes)
    (out_file : FilePath) where
  abbrev pub loop_of_parts : FilePath → World → Outcome (Bool × InStream × OutStream)
  loop_of_parts p =
      subset_loop host program_path msg n (length c) out_file (start_of p) (sink out_file 0 [])

  abbrev pub loop_of_cuts : InStream → ℕ → World → Outcome (Option ℕ × InStream × OutStream)
  loop_of_cuts s off =
      complement_loop host program_path msg n n 0 (length c) out_file s (sink out_file off [])

-- The control flow of a round, from what its loops return.
module _ (host : Host) (program_path : FilePath) (msg : Bytes) (fuel n : ℕ) (p : FilePath)
    (c : Bytes) (w w2 : World) (held : w.files p ≡ some c) (long : leb (length c) 1 ≡ false)
    (o : Opened host p c w w2) where
  pub after_hit :
      {off : ℕ} {s : InStream} {w3 : World}
      → loop_of_parts host program_path msg n c (part_path w.file_no) p w2
        ≡ done (true, s, sink (part_path w.file_no) off []) w3
      → ddmin_loop host program_path msg (suc fuel) n p w
        ≡ ddmin_loop host program_path msg fuel 2 (part_path w.file_no) w3
  unfolding ddmin_loop unchecked
  after_hit loop =
      rw
        (byte_count_file-length p w held, long, o.opens, o.numbers, o.creates, loop, fflush-nothing)

  pub after_cut :
      {off off2 n' : ℕ} {s s2 : InStream} {w3 w4 : World}
      → loop_of_parts host program_path msg n c (part_path w.file_no) p w2
        ≡ done (false, s, sink (part_path w.file_no) off []) w3
      → loop_of_cuts host program_path msg n c (part_path w.file_no) s off w3
        ≡ done (some n', s2, sink (part_path w.file_no) off2 []) w4
      → ddmin_loop host program_path msg (suc fuel) n p w
        ≡ ddmin_loop host program_path msg fuel n' (part_path w.file_no) w4
  unfolding ddmin_loop unchecked
  after_cut loop loop2 = rw (
    byte_count_file-length p w held,
    long,
    o.opens,
    o.numbers,
    o.creates,
    loop,
    loop2,
    fflush-nothing,
  )

  pub after_none :
      {off off2 : ℕ} {s s2 : InStream} {w3 w4 : World}
      → loop_of_parts host program_path msg n c (part_path w.file_no) p w2
        ≡ done (false, s, sink (part_path w.file_no) off []) w3
      → loop_of_cuts host program_path msg n c (part_path w.file_no) s off w3
        ≡ done (none, s2, sink (part_path w.file_no) off2 []) w4
      → ddmin_loop host program_path msg (suc fuel) n p w
        ≡ (if ltb n (length c)
              then ddmin_loop host program_path msg fuel (min (n * 2) (length c)) p
              else pure p)
            w4
  unfolding ddmin_loop unchecked
  after_none loop loop2 = rw (
    byte_count_file-length p w held,
    long,
    o.opens,
    o.numbers,
    o.creates,
    loop,
    loop2,
    fflush-nothing,
  )
