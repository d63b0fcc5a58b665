-- ===== src/Base/Parts.antt =====
-- Successive cuts of one list.
use Prim.Native.Nat.{ℕ, zero, suc, ◌+◌, ◌-◌, ◌≤◌}
use mathlib.Core.Path.{◌≡◌, refl, ap, ◌∙◌, sym}
use mathlib.Core.List.{List, [], ◌∷◌, ◌++◌}
use native.Mathlib.Omega.{arith}
use diy_ddmin.Base.Lists.{length, take, drop, length-append, length-take, length-drop}

suc-add : (m n : ℕ) → suc m + n ≡ suc (m + n)
suc-add m n = omega arith

module _ {ℓ} {A : Type ℓ} where
  pub take-nil : (n : ℕ) → take {A = A} n [] ≡ []
  take-nil zero = refl
  take-nil (suc n) = refl

  pub drop-nil : (n : ℕ) → drop {A = A} n [] ≡ []
  drop-nil zero = refl
  drop-nil (suc n) = refl

  pub drop-drop : (m n : ℕ) (xs : List A) → drop m (drop n xs) ≡ drop (n + m) xs
  drop-drop m zero xs = ap (λ k. drop k xs) (omega arith)
  drop-drop m (suc n) [] = drop-nil m ∙ sym (drop-nil (suc n + m))
  drop-drop m (suc n) (x ∷ xs) = drop-drop m n xs ∙ ap (λ k. drop k (x ∷ xs)) (sym (suc-add n m))

  pub take-add : (m n : ℕ) (xs : List A) → take (n + m) xs ≡ take n xs ++ take m (drop n xs)
  take-add m zero xs = ap (λ k. take k xs) (omega arith)
  take-add m (suc n) [] = take-nil (suc n + m) ∙ sym (take-nil m)
  take-add m (suc n) (x ∷ xs) =
      ap (λ k. take k (x ∷ xs)) (suc-add n m) ∙ ap (λ r. x ∷ r) (take-add m n xs)

  -- The length of a list without the `m` elements behind its first `n`.
  pub length-cut :
      (n m : ℕ) (xs : List A)
      → n + m ≤ length xs
      → length (take n xs ++ drop (n + m) xs) ≡ length xs - m
  length-cut n m xs h =
      omega (
        arith,
        length-append (take n xs) (drop (n + m) xs),
        length-take n xs,
        length-drop (n + m) xs,
      )

  pub take-take : (m k : ℕ) (xs : List A) → m ≤ k → take m (take k xs) ≡ take m xs
  take-take zero k xs h = refl
  take-take (suc m) zero xs h = absurd (omega arith)
  take-take (suc m) (suc k) [] h = refl
  take-take (suc m) (suc k) (x ∷ xs) h = ap (λ r. x ∷ r) (take-take m k xs (omega arith))

  take-drop_rest : (k : ℕ) (xs : List A) → take k xs ++ drop (length (take k xs)) xs ≡ xs
  take-drop_rest zero xs = refl
  take-drop_rest (suc k) [] = refl
  take-drop_rest (suc k) (x ∷ xs) = ap (λ r. x ∷ r) (take-drop_rest k xs)

  -- What a window of `k` elements leaves behind its first `m`, and what stands behind the window.
  pub drop-window :
      (m k : ℕ) (xs : List A)
      → m ≤ k
      → drop m (take k xs) ++ drop (length (take k xs)) xs ≡ drop m xs
  drop-window zero k xs h = take-drop_rest k xs
  drop-window (suc m) zero xs h = absurd (omega arith)
  drop-window (suc m) (suc k) [] h = refl
  drop-window (suc m) (suc k) (x ∷ xs) h = drop-window m k xs (omega arith)

  -- A cut of two lists behind all of the first.
  pub take-append_right :
      (m : ℕ) (xs ys : List A) → take (length xs + m) (xs ++ ys) ≡ xs ++ take m ys
  take-append_right m [] ys = ap (λ k. take k ys) (omega arith)
  take-append_right m (x ∷ xs) ys =
      ap (λ k. take k (x ∷ xs ++ ys)) (suc-add (length xs) m)
      ∙ ap (λ r. x ∷ r) (take-append_right m xs ys)

  pub drop-append_right : (m : ℕ) (xs ys : List A) → drop (length xs + m) (xs ++ ys) ≡ drop m ys
  drop-append_right m [] ys = ap (λ k. drop k ys) (omega arith)
  drop-append_right m (x ∷ xs) ys =
      ap (λ k. drop k (x ∷ xs ++ ys)) (suc-add (length xs) m) ∙ drop-append_right m xs ys
