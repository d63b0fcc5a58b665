-- ===== src/Paths/Apart.antt =====
-- Generated file names do not collide.
use Prim.Native.Nat.{◌*◌}
use native.Mathlib.Nat.{pow-suc}
use diy_ddmin.Base.{
  ℕ, zero, suc, ◌+◌, ◌-◌, ◌/◌, ◌%◌, ◌≤◌, ◌<◌, ◌≡◌, ◌≢◌, refl, sym, ap, ◌∙◌, ◌↔◌, true, false, [],
  ◌∷◌, arith, ltb, ◌==◌, if◌then◌else◌, length, length-append, drop, ltb→lt, ltb→le, lt→ltb, ◌^◌,
  ne→==, Bool-cases, inl, inr, drop-append_length, subst,
}
use diy_ddmin.Paths.{
  Bytes, FilePath, codes, bytes_eq, digits, decimal, part_path, stdout_path, stderr_path,
}

pub bytes_eq_iff : (xs ys : Bytes) → (bytes_eq xs ys ≡ true) ↔ (xs ≡ ys)
unfolding bytes_eq
bytes_eq_iff [] [] = (λ h. refl, λ h. refl)
bytes_eq_iff [] (y ∷ ys) = (λ h. cc, λ h. cc)
bytes_eq_iff (x ∷ xs) [] = (λ h. cc, λ h. cc)
bytes_eq_iff (x ∷ xs) (y ∷ ys) = ground (arith, bytes_eq_iff xs ys)

pub bytes_eq_refl : (xs : Bytes) → bytes_eq xs xs ≡ true
bytes_eq_refl xs = (bytes_eq_iff xs xs).1 refl

pub bytes_eq_ne : (xs ys : Bytes) → xs ≢ ys → bytes_eq xs ys ≡ false
bytes_eq_ne xs ys ne = ground (arith, bytes_eq_iff xs ys)

-- The number that the digits in front of the first dot spell, behind those of `acc`.
number : ℕ → Bytes → ℕ
number acc [] = acc
number acc (c ∷ s) = if c == 46 then acc else number (acc * 10 + (c - 48)) s

number-digit :
    (acc r : ℕ) (s : Bytes) → r < 10 → number acc ((48 + r) ∷ s) ≡ number (acc * 10 + r) s
unfolding number
number-digit acc r s h =
    let e : ((48 + r) == 46) ≡ false = ne→== (48 + r) 46 (omega arith) in
    let d : acc * 10 + (48 + r - 48) ≡ acc * 10 + r = omega arith in rw (e, d)

number-digits : (fuel n : ℕ) (s : Bytes) → n < fuel → number 0 (digits fuel n s) ≡ number n s
unfolding digits
number-digits zero n s h = absurd (omega arith)
number-digits (suc fuel) n s h = elim (Bool-cases (ltb n 10)) [
  | inl small ↦
      rw small (number-digit 0 n s (ltb→lt n 10 small) ∙ ap (λ k. number k s) (omega arith))
  | inr large ↦
      let big : 10 ≤ n = ltb→le n 10 large in
      rw large (
        number-digits fuel (n / 10) ((48 + n % 10) ∷ s) (omega arith)
        ∙ number-digit (n / 10) (n % 10) s (omega arith)
        ∙ ap (λ k. number k s) (omega arith))
]

pub length-digits :
    (d fuel n : ℕ) (s : Bytes) → n < 10 ^ suc d → length (digits fuel n s) ≤ suc d + length s
unfolding digits
length-digits d zero n s h = omega arith
length-digits zero (suc fuel) n s h = rw (lt→ltb n 10 (omega arith)) (omega arith)
length-digits (suc d) (suc fuel) n s h = elim (Bool-cases (ltb n 10)) [
  | inl small ↦ rw small (omega arith)
  | inr large ↦
      let tenth : n / 10 < 10 ^ suc d = omega (arith, pow-suc 10 (suc d)) in
      rw large (omega (arith, length-digits d fuel (n / 10) ((48 + n % 10) ∷ s) tenth))
]

-- The name of a file whose number is an `int` is short.
pub length-part_path : (k : ℕ) → k < 2 ^ 31 → length (part_path k) < 20
unfolding part_path
length-part_path k h = omega (arith, length-digits 9 (suc k) k (codes ".part") (omega arith))

-- Distinct numbers give distinct names.
pub part_path_injective : (j k : ℕ) → part_path j ≡ part_path k → j ≡ k
unfolding part_path number
part_path_injective j k h =
    sym (number-digits (suc j) j (codes ".part") (omega arith))
    ∙ ap (λ p. number 0 (drop 2 p)) h
    ∙ number-digits (suc k) k (codes ".part") (omega arith)

-- A name is longer than the input's it is made from.
pub stdout_path-ne : (p : FilePath) → stdout_path p ≢ p
unfolding stdout_path
stdout_path-ne p h = omega (arith, ap length h, length-append p (codes ".stdout"))

pub stderr_path-ne : (p : FilePath) → stderr_path p ≢ p
unfolding stderr_path
stderr_path-ne p h = omega (arith, ap length h, length-append p (codes ".stderr"))

-- Whether a text begins with a digit.
abbrev pub HeadDigit : Bytes → Type 0
HeadDigit [] = ⊥
HeadDigit (c ∷ s) = (48 ≤ c) × (c < 58)

pub digits-HeadDigit : (fuel n : ℕ) (s : Bytes) → n < fuel → HeadDigit (digits fuel n s)
unfolding digits
digits-HeadDigit zero n s h = absurd (omega arith)
digits-HeadDigit (suc fuel) n s h = elim (Bool-cases (ltb n 10)) [
  | inl small ↦ rw small (omega arith, omega (arith, ltb→lt n 10 small))
  | inr large ↦
      let big : 10 ≤ n = ltb→le n 10 large in
      rw large (digits-HeadDigit fuel (n / 10) ((48 + n % 10) ∷ s) (omega arith))
]

-- A numbered file is no output file of a test on a numbered file.
pub part-ne-stdout : (j k : ℕ) → part_path j ≢ stdout_path (part_path k)
unfolding part_path stdout_path
part-ne-stdout j k h =
    let d : HeadDigit (drop 2 (part_path j)) = digits-HeadDigit (suc j) j _ (omega arith) in
    let e : HeadDigit (drop 2 (stdout_path (part_path k))) =
      subst (λ p. HeadDigit (drop 2 p)) h d in
    absurd (omega (arith, e.0))

pub part-ne-stderr : (j k : ℕ) → part_path j ≢ stderr_path (part_path k)
unfolding part_path stderr_path
part-ne-stderr j k h =
    let d : HeadDigit (drop 2 (part_path j)) = digits-HeadDigit (suc j) j _ (omega arith) in
    let e : HeadDigit (drop 2 (stderr_path (part_path k))) =
      subst (λ p. HeadDigit (drop 2 p)) h d in
    absurd (omega arith)

pub stdout-ne-stderr : (p : FilePath) → stdout_path p ≢ stderr_path p
unfolding stdout_path stderr_path
stdout-ne-stderr p h =
    let e : codes ".stdout" ≡ codes ".stderr" =
      sym (drop-append_length p (codes ".stdout"))
      ∙ ap (λ q. drop (length p) (drop 2 q)) h
      ∙ drop-append_length p (codes ".stderr") in
    absurd (omega (arith, ap (λ q. first (drop 4 q)) e))
  where
    first : Bytes → ℕ
    first [] = 0
    first (c ∷ s) = c

-- What `%d` writes in front of the end of a name, or of a dot, spells the number.
pub decimal-injective : (m n : ℕ) → decimal m [] ≡ decimal n [] → m ≡ n
unfolding decimal number
decimal-injective m n h =
    sym (number-digits (suc m) m [] (omega arith))
    ∙ ap (number 0) h
    ∙ number-digits (suc n) n [] (omega arith)

pub decimal_part-injective :
    (m n : ℕ) → decimal m (codes ".part") ≡ decimal n (codes ".part") → m ≡ n
unfolding decimal number
decimal_part-injective m n h =
    sym (number-digits (suc m) m (codes ".part") (omega arith))
    ∙ ap (number 0) h
    ∙ number-digits (suc n) n (codes ".part") (omega arith)
