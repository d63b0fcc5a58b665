-- ===== src/Range.antt =====
-- src/range.c: reducers that cut one window out of the input at a time. What they share.
pub mod Copying
pub mod Increasing
pub mod Queue
pub mod Threads
use diy_ddmin.Base.{ℕ, zero, suc, ◌-◌, min, length, ltb, if◌then◌else◌}
use diy_ddmin.Machine.{Host, World, Outcome, done, out_of_fuel, M}
use diy_ddmin.Stdio.{InStream, OutStream, fread, fwrite, rewind_in, rewind_out}

-- Both streams at their starts again
abbrev pub init_cursor : InStream → OutStream → InStream × OutStream
init_cursor s t = (rewind_in s, rewind_out t)

-- `while (n > 0)` in `read_and_write`, with a bound on its rounds.
unfoldable pub read_and_write_loop : Host → ℕ → InStream → OutStream → ℕ → M (InStream × OutStream)
read_and_write_loop host fuel s t zero w = done (s, t) w
read_and_write_loop host zero s t (suc n) w = out_of_fuel
read_and_write_loop host (suc fuel) s t (suc n) w =
    let size : ℕ = if ltb 2048 (suc n) then 2048 else suc n in
    let (buf, s') = fread host s size w in
    read_and_write_loop host fuel s' (fwrite t buf) (suc n - length buf) w

unfoldable pub read_and_write : Host → InStream → OutStream → ℕ → M (InStream × OutStream)
unfolding read_and_write_loop
read_and_write host s t n = read_and_write_loop host n s t n
