-- ===== src/Range/Copying.antt =====
-- `read_and_write` copies what the loops of `ddmin` copy.
use diy_ddmin.Base.{
  ℕ, zero, suc, ◌-◌, ◌≤◌, ◌≡◌, refl, subst, sym, arith, min, length, ltb, if◌then◌else◌,
}
use diy_ddmin.Machine.{Host, World}
use diy_ddmin.Stdio.{InStream, OutStream, fread, fwrite, copy_loop, copy_bytes}
use diy_ddmin.Stdio.Reading.{rest}
use diy_ddmin.Stdio.Copying.{Copied, copy_bytes-Copied}
use diy_ddmin.Range.{read_and_write_loop, read_and_write}

at_most : (n : ℕ) → (if ltb 2048 n then 2048 else n) ≡ min n 2048
at_most n = ground arith

read_and_write_loop-copy_loop :
    (host : Host) (fuel : ℕ) (s : InStream) (t : OutStream) (n : ℕ) (w : World)
    → read_and_write_loop host fuel s t n w ≡ copy_loop host fuel s t n w
unfolding read_and_write_loop copy_loop
read_and_write_loop-copy_loop host fuel s t zero w = refl
read_and_write_loop-copy_loop host zero s t (suc n) w = refl
read_and_write_loop-copy_loop host (suc fuel) s t (suc n) w =
    let k : ℕ = min (suc n) 2048 in
    let got = fread host s k w in
    subst
      (λ j.
        let read = fread host s j w in
        read_and_write_loop host fuel read.1 (fwrite t read.0) (suc n - length read.0) w
        ≡ copy_loop host fuel got.1 (fwrite t got.0) (suc n - length got.0) w)
      (sym (at_most (suc n)))
      (read_and_write_loop-copy_loop host fuel got.1 (fwrite t got.0) (suc n - length got.0) w)

pub read_and_write-Copied :
    (host : Host) (w : World) (s : InStream) (t : OutStream) (n : ℕ)
    → n ≤ length (rest s w)
    → Copied (read_and_write host s t n w) s t n w
unfolding read_and_write copy_bytes
read_and_write-Copied host w s t n h =
    subst (λ r. Copied r s t n w) (sym (read_and_write_loop-copy_loop host n s t n w))
      (copy_bytes-Copied host w s t n h)
