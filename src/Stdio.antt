-- ===== src/Stdio.antt =====
-- The streams of <stdio.h> as src/ddmin.c and src/range.c use them, with the buffers that make
-- `lseek` on a stream's descriptor delicate, and the copying loops over them.
pub mod Reading
pub mod Writing
pub mod Copying
use diy_ddmin.Base.{
  ℕ, zero, suc, ◌+◌, ◌-◌, ◌<◌, ◌≡◌, Bool, true, false, Option, none, some, List, [], ◌∷◌, ◌++◌, min,
  ltb, leb, ◌==◌, if◌then◌else◌, length, take, drop,
}
use diy_ddmin.Paths.{Bytes, FilePath}
use diy_ddmin.Machine.{
  Host, World, Outcome, done, exited, fault, out_of_fuel, null_stream, M, pure, exit, fail_with,
  diverge, ◌>>=◌, ◌>>◌, set_file,
}

-- A stream open for reading: the descriptor's offset, and the bytes read ahead of the program.
pub record InStream : Type 0 where
  pub path : FilePath
  pub off : ℕ
  pub ahead : Bytes

-- A stream open for writing; its target is none for /dev/null. `pending` is not yet in the file.
pub record OutStream : Type 0 where
  pub target : Option FilePath
  pub off : ℕ
  pub pending : Bytes

-- The bytes of a file; a missing one has none.
unfoldable pub contents : FilePath → World → Bytes
contents p w = elim (w.files p) [ none ↦ [] | some c ↦ c ]

-- `fopen(path, "rb")`; none is NULL.
unfoldable pub fopen_read : FilePath → M (Option InStream)
fopen_read p w = elim (w.files p) [
  | none ↦ done none w
  | some c ↦ done (some (record { path = p; off = 0; ahead = [] })) w
]

-- `fopen(path, "wb")` empties the file.
unfoldable pub fopen_write : Host → FilePath → M (Option OutStream)
fopen_write host p w =
    if host.can_create p
    then done (some (record { target = some p; off = 0; pending = [] })) (set_file p (some []) w)
    else done none w

abbrev pub null_sink : OutStream
null_sink = record { target = none; off = 0; pending = [] }

-- The result of an `fopen` that is used unchecked, by `fileno`.
unfoldable pub unchecked : {A : Type 0} → Option A → M A
unchecked none = fail_with null_stream
unchecked (some s) = pure s

-- `lseek(fd, 0, SEEK_SET)` moves the descriptor, and leaves the stream's buffer as it is.
abbrev pub rewind_in : InStream → InStream
rewind_in s = record s { off = 0 }

abbrev pub rewind_out : OutStream → OutStream
rewind_out s = record s { off = 0 }

-- `fread(buf, 1, n, s)`: first what was read ahead, then from the file, ahead once more.
unfoldable pub fread : Host → InStream → ℕ → World → Bytes × InStream
fread host s n w =
    let missing = n - length s.ahead in
    let chunk = take (missing + host.read_ahead missing) (drop s.off (contents s.path w)) in
    if leb n (length s.ahead) then (take n s.ahead, record s { ahead = drop n s.ahead }) else (
      s.ahead ++ take missing chunk,
      record s { off = s.off + length chunk; ahead = drop missing chunk },
    )

abbrev pub fwrite : OutStream → Bytes → OutStream
fwrite s b = record s { pending = s.pending ++ b }

-- `b` written over `c` from offset `k` on; a gap would be filled with zeros.
unfoldable pub write_at : ℕ → Bytes → Bytes → Bytes
write_at zero b c = b ++ drop (length b) c
write_at (suc k) b [] = 0 ∷ write_at k b []
write_at (suc k) b (x ∷ c) = x ∷ write_at k b c

-- `fflush(s)`, which also stands for the flush in `fclose`: with nothing pending, nothing is written.
unfoldable pub fflush : OutStream → M OutStream
fflush s w =
    let t = record s { off = s.off + length s.pending; pending = [] } in
    elim s.pending [
      | [] ↦ done s w
      | _ ∷ _ ↦ elim s.target [
        | none ↦ done t w
        | some p ↦ done t (set_file p (some (write_at s.off s.pending (contents p w))) w)
      ]
    ]

unfoldable pub zeros : ℕ → Bytes
zeros zero = []
zeros (suc n) = 0 ∷ zeros n

-- `truncate(path, size)` cuts a longer file, and fills a shorter one with zeros.
unfoldable pub truncate : FilePath → ℕ → M (Unit {0})
unfolding zeros
truncate p n w =
    let c = contents p w in done tt (set_file p (some (take n c ++ zeros (n - length c))) w)

-- `while (n > 0) { read at most 2048 bytes and write them; n -= what was read; }`. Each round that
-- reads a byte lowers `n`, so `n` rounds are enough for as many bytes; at the end of the file the
-- loop of the source does not end.
unfoldable pub copy_loop : Host → ℕ → InStream → OutStream → ℕ → M (InStream × OutStream)
copy_loop host fuel s t zero w = done (s, t) w
copy_loop host zero s t (suc n) w = out_of_fuel
copy_loop host (suc fuel) s t (suc n) w =
    let (buf, s') = fread host s (min (suc n) 2048) w in
    copy_loop host fuel s' (fwrite t buf) (suc n - length buf) w

-- The loops of `ddmin` over `_part_size`, `c_start` and `_f_size`
unfoldable pub copy_bytes : Host → InStream → OutStream → ℕ → M (InStream × OutStream)
unfolding copy_loop
copy_bytes host s t n = copy_loop host n s t n
