-- ===== src/Ddmin/Spec/Cuts.antt =====
-- The sizes of parts, and what the two searches find.
use mathlib.Core.List.{Sublist}
use mathlib.Core.List.Sublist
use native.Mathlib.Nat.{mul-div-le, le-div_iff_mul-le}
use diy_ddmin.Base.{
  List, ℕ, zero, suc, ◌+◌, ◌-◌, ◌*◌, ◌/◌, ◌≤◌, ◌<◌, ◌≡◌, ap, subst, ◌∙◌, Bool, true, false, none,
  some, [], ◌∷◌, ◌++◌, arith, ltb, ◌==◌, ==→eq, ==→ne, lt→ltb, Bool-cases, inl, inr, length, take,
  drop, length-take, length-drop, take-append-drop,
}
use mathlib.Core.Option.{some-injective}
use mathlib.Core.List.{nil-sublist}
use diy_ddmin.Base.Parts.{drop-drop, length-cut}
use diy_ddmin.Paths.{Bytes}
use diy_ddmin.Ddmin.Spec.{part_size, first_part, first_cut}

rounded_up-le : (b j a : ℕ) → suc b * suc j ≤ a + b → suc b ≤ a → suc j + b ≤ a
rounded_up-le b zero a h k = omega arith
rounded_up-le b (suc i) a h k = omega arith

rounded_up-bounds : (b q a : ℕ) → suc b * q ≤ a + b → suc b ≤ a → 1 ≤ q → (1 ≤ q) × (q + b ≤ a)
rounded_up-bounds b zero a low k pos = absurd (omega arith)
rounded_up-bounds b (suc j) a low k pos = (pos, rounded_up-le b j a low k)

-- A part is not empty, and leaves a byte for each part behind it.
pub part_size_bounds :
    (a b : ℕ) → 0 < b → b ≤ a → (1 ≤ part_size a b) × (part_size a b + (b - 1) ≤ a)
unfolding part_size
part_size_bounds a zero h k = absurd (omega arith)
part_size_bounds a (suc b) h k =
    let q : ℕ = (a + b) / suc b in
    let bounds : (1 ≤ q) × (q + b ≤ a) =
      rounded_up-bounds b q a (mul-div-le (a + b) (suc b)) k
        ((le-div_iff_mul-le {k = suc b} (omega arith)).1 (omega arith)) in
    let same : suc b - 1 ≡ b = omega arith in rw same bounds

pub part_size-one : (a : ℕ) → part_size a 1 ≡ a
unfolding part_size
part_size-one a = omega arith

pub part_size_self : (a : ℕ) → 0 < a → part_size a a ≡ 1
unfolding part_size
part_size_self a h = grind arith

module _ {ℓ} {A : Type ℓ} where
  pub take-sublist : (n : ℕ) (xs : List A) → Sublist (take n xs) xs
  take-sublist zero xs = nil-sublist xs
  take-sublist (suc n) [] = Sublist.refl []
  take-sublist (suc n) (x ∷ xs) = Sublist.cons-cons x (take-sublist n xs)

  pub drop-sublist : (n : ℕ) (xs : List A) → Sublist (drop n xs) xs
  drop-sublist zero xs = Sublist.refl xs
  drop-sublist (suc n) [] = Sublist.refl []
  drop-sublist (suc n) (x ∷ xs) = Sublist.cons x (drop-sublist n xs)

  pub cut-sublist : (n m : ℕ) (xs : List A) → Sublist (take n xs ++ drop (n + m) xs) xs
  cut-sublist n m xs = subst (Sublist (take n xs ++ drop (n + m) xs)) (take-append-drop n xs) (
      Sublist.append (Sublist.refl (take n xs))
        (subst (λ r. Sublist r (drop n xs)) (drop-drop m n xs) (drop-sublist m (drop n xs))))

module _ (fails : Bytes → Bool) where
  -- A shorter byte string that still fails, with a byte for each of `n` parts at least.
  pub record Smaller (c : Bytes) (n : ℕ) (d : Bytes) : Type 0 where
    pub fails_still : fails d ≡ true
    pub sublist : Sublist d c
    pub shorter : length d < length c
    pub room : n ≤ length d

  PartOf : ℕ → Bytes → Bytes → Type 0
  PartOf n c d = (fails d ≡ true) × Sublist d c × (1 ≤ length d) × (length d + (n - 1) ≤ length c)

  first_part-PartOf :
      (n : ℕ) (c d : Bytes) → n ≤ length c → first_part fails n c ≡ some d → PartOf n c d
  unfolding first_part PartOf
  first_part-PartOf zero c d fit h = cc
  first_part-PartOf (suc n) c d fit h =
      let k = part_size (length c) (suc n) in
      let bounds : (1 ≤ k) × (k + (suc n - 1) ≤ length c) =
        part_size_bounds (length c) (suc n) (omega arith) fit in
      elim (Bool-cases (fails (take k c))) [
        | inl bad ↦
            subst (PartOf (suc n) c) (some-injective (take k c) d (rw bad at h)) (
              bad,
              take-sublist k c,
              omega (arith, length-take k c),
              omega (arith, length-take k c),
            )
        | inr good ↦
            let (f, sub, one, size) =
              first_part-PartOf n (drop k c) d (omega (arith, length-drop k c)) (rw good at h) in
            (f, Sublist.trans sub (drop-sublist k c), one, omega (arith, length-drop k c))
      ]

  -- Of two parts or more, each is shorter than the whole.
  pub first_part-Smaller :
      (n : ℕ) (c d : Bytes) → 2 ≤ n → n ≤ length c → first_part fails n c ≡ some d → Smaller c 1 d
  unfolding PartOf
  first_part-Smaller n c d two fit h =
      let (f, sub, one, size) = first_part-PartOf n c d fit h in
      record { fails_still = f; sublist = sub; shorter = omega arith; room = one }

  -- `n'` parts of `n` are left, each with a byte at least, as had those in front of `start`.
  pub first_cut-Smaller :
      (n n' start : ℕ) (c d : Bytes)
      → n ≤ start + n'
      → start + n' ≤ length c
      → first_cut fails n' c start ≡ some d
      → Smaller c (n - 1) d
  unfolding first_cut
  first_cut-Smaller n zero start c d gone fit h = cc
  first_cut-Smaller n (suc n') start c d gone fit h =
      let k = part_size (length c - start) (suc n') in
      let bounds : (1 ≤ k) × (k + (suc n' - 1) ≤ length c - start) =
        part_size_bounds (length c - start) (suc n') (omega arith) (omega arith) in
      let size : length (take start c ++ drop (start + k) c) ≡ length c - k =
        length-cut start k c (omega arith) in
      elim (Bool-cases (fails (take start c ++ drop (start + k) c))) [
        | inl bad ↦
            subst (Smaller c (n - 1))
              (some-injective (take start c ++ drop (start + k) c) d (rw bad at h))
              (record {
                fails_still = bad;
                sublist = cut-sublist start k c;
                shorter = omega arith;
                room = omega arith;
              })
        | inr good ↦ elim (Bool-cases (ltb (start + k) (length c))) [
          | inl more ↦
              first_cut-Smaller n n' (start + k) c d (omega arith) (omega arith)
                (rw (good, more) at h)
          | inr over ↦ let e : none ≡ some d = rw (good, over) at h in cc
        ]
      ]

  -- With as many parts as bytes, a search without success has tried to remove each byte.
  pub first_cut-none :
      (n start : ℕ) (c : Bytes)
      → start + n ≡ length c
      → first_cut fails n c start ≡ none
      → (i : ℕ) → start ≤ i
      → i < length c
      → fails (take i c ++ drop (i + 1) c) ≡ false
  unfolding first_cut
  first_cut-none zero start c all h i lo hi = absurd (omega arith)
  first_cut-none (suc n) start c all h i lo hi =
      let e : length c - start ≡ suc n = omega arith in
      let k = part_size (length c - start) (suc n) in
      let one : k ≡ 1 = ap (λ j. part_size j (suc n)) e ∙ part_size_self (suc n) (omega arith) in
      elim (Bool-cases (fails (take start c ++ drop (start + k) c))) [
        | inl bad ↦ let e : some (take start c ++ drop (start + k) c) ≡ none = rw bad at h in cc
        | inr good ↦ elim (Bool-cases (start == i)) [
          | inl here ↦
              subst (λ j. fails (take j c ++ drop (j + 1) c) ≡ false) (==→eq start i here)
                (subst (λ j. fails (take start c ++ drop (start + j) c) ≡ false) one good)
          | inr later ↦
              let past : start < i = omega (arith, ==→ne start i later) in
              let more : ltb (start + k) (length c) ≡ true =
                lt→ltb (start + k) (length c) (omega arith) in
              first_cut-none n (start + k) c (omega arith) (rw (good, more) at h) i (omega arith) hi
        ]
      ]
