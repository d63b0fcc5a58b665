-- ===== src/Stdio/Reading.antt =====
-- What a stream has still to give, whatever the library reads ahead.
use diy_ddmin.Base.{
  ℕ, ◌+◌, ◌-◌, ◌≤◌, ◌<◌, ◌≡◌, refl, sym, ap, ◌∙◌, ◌++◌, arith, leb, leb→le, leb→lt, Bool-cases, inl,
  inr, some, [], ◌∷◌, length, take, drop, take-append_left, drop-append_left,
}
use diy_ddmin.Base.Parts.{drop-drop, take-take, drop-window, take-append_right, drop-append_right}
use diy_ddmin.Paths.{Bytes, FilePath}
use diy_ddmin.Machine.{Host, World}
use diy_ddmin.Stdio.{InStream, contents, fread}

-- The bytes that the program will read next, to the end of the file.
abbrev pub rest : InStream → World → Bytes
rest s w = s.ahead ++ drop s.off (contents s.path w)

pub contents-some : (p : FilePath) (w : World) {c : Bytes} → w.files p ≡ some c → contents p w ≡ c
unfolding contents
contents-some p w h = rw (h, contents)

-- Nothing changes for a stream while its file stays the same.
pub rest-kept :
    (s : InStream) (w w' : World) → w'.files s.path ≡ w.files s.path → rest s w' ≡ rest s w
unfolding contents
rest-kept s w w' h = rw (h, contents)

append-eq-nil : (xs ys : Bytes) → xs ++ ys ≡ [] → xs ≡ []
append-eq-nil [] ys h = refl
append-eq-nil (x ∷ xs) ys h = cc

-- At the end of its file a stream has nothing read ahead.
pub ahead-nil : (s : InStream) (w : World) → rest s w ≡ [] → s.ahead ≡ []
ahead-nil s w h = append-eq-nil s.ahead (drop s.off (contents s.path w)) h

module _ (host : Host) (s : InStream) (n : ℕ) (w : World) where
  -- A read gives the next `n` bytes of the stream, and leaves the bytes behind them.
  pub fread-rest :
      ((fread host s n w).0 ≡ take n (rest s w))
      × (rest (fread host s n w).1 w ≡ drop n (rest s w))
      × ((fread host s n w).1.path ≡ s.path)
  unfolding fread
  fread-rest = elim (Bool-cases (leb n (length s.ahead))) [
    | inl held ↦
        let fits : n ≤ length s.ahead = leb→le _ _ held in
        rw held
          (sym (take-append_left n s.ahead _ fits), sym (drop-append_left n s.ahead _ fits), refl)
    | inr short ↦
        let over : length s.ahead < n = leb→lt _ _ short in
        let m : ℕ = n - length s.ahead in
        let whole : length s.ahead + m ≡ n = omega arith in
        let k : ℕ = m + host.read_ahead m in
        let file : Bytes = drop s.off (contents s.path w) in
        rw short (
          ap (λ r. s.ahead ++ r) (take-take m k file (omega arith))
              ∙ sym (take-append_right m s.ahead file)
              ∙ ap (λ j. take j (s.ahead ++ file)) whole,
          ap (λ r. drop m (take k file) ++ r)
                (sym (drop-drop (length (take k file)) s.off (contents s.path w)))
              ∙ drop-window m k file (omega arith)
              ∙ sym (drop-append_right m s.ahead file)
              ∙ ap (λ j. drop j (s.ahead ++ file)) whole,
          refl,
        )
  ]
