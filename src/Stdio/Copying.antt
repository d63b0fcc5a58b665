-- ===== src/Stdio/Copying.antt =====
-- The copying loop moves exactly the next bytes of one stream to the other.
use diy_ddmin.Base.{
  ℕ, zero, suc, ◌+◌, ◌-◌, ◌≤◌, ◌<◌, ◌≡◌, refl, sym, ap, ◌∙◌, ◌++◌, arith, min, length, take, drop,
  length-take, length-drop, append_assoc, append-nil,
}
use diy_ddmin.Base.Parts.{drop-drop, take-add}
use diy_ddmin.Paths.{Bytes}
use diy_ddmin.Machine.{Host, World, Outcome, done, out_of_fuel}
use diy_ddmin.Stdio.{InStream, OutStream, fread, fwrite, copy_loop, copy_bytes}
use diy_ddmin.Stdio.Reading.{rest, fread-rest}

-- A stream after `n` of its bytes have been read.
pub record IsAfter (n : ℕ) (s : InStream) (w : World) (s' : InStream) : Type 0 where
  pub left : rest s' w ≡ drop n (rest s w)
  pub same_path : s'.path ≡ s.path

-- A loop that has read `n` bytes of `s`, and has written them to `t`.
abbrev pub Copied : Outcome (InStream × OutStream) → InStream → OutStream → ℕ → World → Type 0
Copied r s t n w =
    (s' : InStream) × (r ≡ done (s', fwrite t (take n (rest s w))) w) × IsAfter n s w s'

-- One round of the loop: it reads `k` of the bytes, the others follow.
module _ (host : Host) (s : InStream) (n : ℕ) (w : World) (h : suc n ≤ length (rest s w)) where
  abbrev round : ℕ
  round = min (suc n) 2048

  abbrev buf : Bytes
  buf = (fread host s round w).0

  abbrev after : InStream
  after = (fread host s round w).1

  length-buf : length buf ≡ round
  length-buf = ap length (fread-rest host s round w).0 ∙ length-take round (rest s w) ∙ omega arith

  cut : round + (suc n - length buf) ≡ suc n
  cut = omega (arith, length-buf)

  joined : take (suc n) (rest s w) ≡ buf ++ take (suc n - length buf) (rest after w)
  joined =
      ap (λ j. take j (rest s w)) (sym cut)
      ∙ take-add (suc n - length buf) round (rest s w)
      ∙ ap (λ r. r ++ take (suc n - length buf) (drop round (rest s w)))
          (sym (fread-rest host s round w).0)
      ∙ ap (λ r. buf ++ take (suc n - length buf) r) (sym (fread-rest host s round w).1)

  left_over : drop (suc n - length buf) (rest after w) ≡ drop (suc n) (rest s w)
  left_over =
      ap (drop (suc n - length buf)) (fread-rest host s round w).1
      ∙ drop-drop (suc n - length buf) round (rest s w)
      ∙ ap (λ j. drop j (rest s w)) cut

  length-left : length (rest after w) ≡ length (rest s w) - round
  length-left = ap length (fread-rest host s round w).1 ∙ length-drop round (rest s w)

module _ (host : Host) (w : World) where
  pub copy_loop-Copied :
      (fuel : ℕ) (s : InStream) (t : OutStream) (n : ℕ)
      → n ≤ fuel
      → n ≤ length (rest s w)
      → Copied (copy_loop host fuel s t n w) s t n w
  unfolding copy_loop
  copy_loop-Copied fuel s t zero f h = (
    s,
    ap (λ b. done (s, record t { pending = b }) w) (sym (append-nil t.pending)),
    record { left = refl; same_path = refl },
  )
  copy_loop-Copied zero s t (suc n) f h = absurd (omega arith)
  copy_loop-Copied (suc fuel) s t (suc n) f h =
      let b = buf host s n w h in
      let s1 = after host s n w h in
      let k : length b ≡ min (suc n) 2048 = length-buf host s n w h in
      let (s', run, end) =
        copy_loop-Copied fuel s1 (fwrite t b) (suc n - length b) (omega arith)
          (omega (arith, length-left host s n w h)) in
      (
        s',
        run
            ∙ ap (λ p. done (s', record t { pending = p }) w)
                (append_assoc t.pending b (take (suc n - length b) (rest s1 w))
                  ∙ ap (λ r. t.pending ++ r) (sym (joined host s n w h))),
        record {
          left = end.left ∙ left_over host s n w h;
          same_path = end.same_path ∙ (fread-rest host s (min (suc n) 2048) w).2;
        },
      )

  -- With fewer bytes left to read than asked for, no number of rounds ends the loop.
  pub copy_loop-diverges :
      (fuel : ℕ) (s : InStream) (t : OutStream) (n : ℕ)
      → length (rest s w) < n
      → copy_loop host fuel s t n w ≡ out_of_fuel
  unfolding copy_loop
  copy_loop-diverges fuel s t zero h = absurd (omega arith)
  copy_loop-diverges zero s t (suc n) h = refl
  copy_loop-diverges (suc fuel) s t (suc n) h =
      let k : ℕ = min (suc n) 2048 in
      let got = fread host s k w in
      let long : length got.0 ≡ min k (length (rest s w)) =
        ap length (fread-rest host s k w).0 ∙ length-take k (rest s w) in
      let left : length (rest got.1 w) ≡ length (rest s w) - k =
        ap length (fread-rest host s k w).1 ∙ length-drop k (rest s w) in
      copy_loop-diverges fuel got.1 (fwrite t got.0) (suc n - length got.0) (omega arith)

  -- With at least `n` bytes left to read, the loop ends, has appended exactly the next `n` bytes to
  -- the output, and leaves those behind them to be read, however much the library reads ahead.
  pub copy_bytes-Copied :
      (s : InStream) (t : OutStream) (n : ℕ)
      → n ≤ length (rest s w)
      → Copied (copy_bytes host s t n w) s t n w
  unfolding copy_bytes
  copy_bytes-Copied s t n h = copy_loop-Copied n s t n (omega arith) h
