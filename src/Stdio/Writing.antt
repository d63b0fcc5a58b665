-- ===== src/Stdio/Writing.antt =====
-- A file that was written from its start, and cut to the length of what was written.
use diy_ddmin.Base.{
  ℕ, suc, ◌+◌, ◌-◌, ◌≤◌, ◌≡◌, ◌≢◌, refl, ap, ◌∙◌, some, [], ◌∷◌, ◌++◌, arith, length, drop,
  append-nil, length-append, length-drop, take-append_length, drop-all,
}
use diy_ddmin.Paths.{Bytes, FilePath}
use diy_ddmin.Machine.{World, done, set_file, byte_count_file}
use diy_ddmin.Machine.Returns.{put-same, put-other}
use diy_ddmin.Stdio.{OutStream, contents, write_at, fflush, truncate}
use diy_ddmin.Stdio.Reading.{contents-some}

-- A stream on the file `p`.
abbrev pub sink : FilePath → ℕ → Bytes → OutStream
sink p off pending = record { target = some p; off = off; pending = pending }

-- The file holds `b`, the other files and the counters are as before.
pub record Stored (p : FilePath) (b : Bytes) (w w' : World) : Type 0 where
  pub holds : w'.files p ≡ some b
  pub others : (q : FilePath) → p ≢ q → w'.files q ≡ w.files q
  pub file_no : w'.file_no ≡ w.file_no
  pub fail_no : w'.fail_no ≡ w.fail_no

-- The bytes written over the start of a file.
abbrev pub over : Bytes → Bytes → Bytes
over b old = b ++ drop (length b) old

pub set_file-Stored : (p : FilePath) (b : Bytes) (w : World) → Stored p b w (set_file p (some b) w)
set_file-Stored p b w = record {
  holds = put-same p (some b) w.files;
  others = λ q ne. put-other p (some b) w.files q ne;
  file_no = refl;
  fail_no = refl;
}

pub Stored-trans :
    {p : FilePath} {a b : Bytes} {w w1 w2 : World}
    → Stored p a w w1
    → Stored p b w1 w2
    → Stored p b w w2
Stored-trans f g = record {
  holds = g.holds;
  others = λ q ne. g.others q ne ∙ f.others q ne;
  file_no = g.file_no ∙ f.file_no;
  fail_no = g.fail_no ∙ f.fail_no;
}

pub fflush-Stored :
    (p : FilePath) (b old : Bytes) (w : World)
    → w.files p ≡ some old
    → (w' : World) × (fflush (sink p 0 b) w ≡ done (sink p (length b) []) w')
      × Stored p (over b old) w w'
unfolding fflush write_at
fflush-Stored p [] old w was =
    (w, refl, record { holds = was; others = λ q ne. refl; file_no = refl; fail_no = refl })
fflush-Stored p (x ∷ b) old w was =
    let e : contents p w ≡ old = contents-some p w was in
    let n : 0 + suc (length b) ≡ suc (length b) = omega arith in
    (set_file p (some (over (x ∷ b) old)) w, rw (e, n), set_file-Stored p (over (x ∷ b) old) w)

-- With nothing pending a flush does nothing.
pub fflush-nothing :
    (p : FilePath) (off : ℕ) (w : World) → fflush (sink p off []) w ≡ done (sink p off []) w
unfolding fflush
fflush-nothing p off w = refl

pub byte_count_file-length :
    (p : FilePath) (w : World) {c : Bytes}
    → w.files p ≡ some c
    → byte_count_file p w ≡ done (length c) w
unfolding byte_count_file
byte_count_file-length p w h = rw (h, byte_count_file)

-- Cutting at the length of `b` leaves `b`, whether bytes stand behind it or not.
pub truncate-Stored :
    (p : FilePath) (b old : Bytes) (w : World)
    → w.files p ≡ some (over b old)
    → (w' : World) × (truncate p (length b) w ≡ done tt w') × Stored p b w w'
unfolding truncate
truncate-Stored p b old w was =
    let e : contents p w ≡ over b old = contents-some p w was in
    let fits : length b - length (over b old) ≡ 0 =
      omega (arith, length-append b (drop (length b) old)) in
    (set_file p (some b) w, rw (e, take-append_length, fits, append-nil), set_file-Stored p b w)

pub over-short : (b old : Bytes) → length (over b old) ≤ length b → over b old ≡ b
over-short b old h =
    ap (λ r. b ++ r)
      (drop-all (length b) old
        (omega (arith, length-append b (drop (length b) old), length-drop (length b) old)))
    ∙ append-nil b
