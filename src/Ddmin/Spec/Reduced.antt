-- ===== src/Ddmin/Spec/Reduced.antt =====
-- The reduction ends, and its result is a subsequence from which no single byte can be removed.
use Prim.Native.Nat.{max}
use mathlib.Core.List.{Sublist}
use mathlib.Core.List.Sublist
use diy_ddmin.Base.{
  ℕ, zero, suc, ◌+◌, ◌-◌, ◌*◌, ◌≤◌, ◌<◌, ◌≡◌, refl, ap, ◌∙◌, Bool, true, false, some, ◌⊎◌, inl, inr,
  ◌++◌, arith, min, ltb, leb, ltb→lt, ltb→le, leb→le, leb→lt, Bool-cases, Option-cases, length,
  take, drop,
}
use diy_ddmin.Paths.{Bytes}
use diy_ddmin.Ddmin.Spec.{first_part, first_cut, reduce}
use diy_ddmin.Ddmin.Spec.Cuts.{Smaller, first_part-Smaller, first_cut-Smaller, first_cut-none}

-- Rounds that are enough for `n` parts of a string of `size` bytes.
abbrev pub rounds_for : ℕ → ℕ → ℕ
rounds_for size n = size * size + (size - n)

square_step : (d c : ℕ) → d < c → d * d + d < c * c
square_step d c h = grind arith

module _ (fails : Bytes → Bool) where
  pub record IsReduced (c r : Bytes) : Type 0 where
    pub sublist : Sublist r c
    pub same_or_fails : (r ≡ c) ⊎ (fails r ≡ true)
    pub one_minimal :
        1 < length r → (i : ℕ) → i < length r → fails (take i r ++ drop (i + 1) r) ≡ false

  abbrev pub Reduces : ℕ → ℕ → Bytes → Type 0
  Reduces fuel n c = (r : Bytes) × (reduce fails fuel n c ≡ some r) × IsReduced c r

  -- A result for a smaller string that fails is one for the string itself.
  IsReduced-Smaller : (c d r : Bytes) (n : ℕ) → Smaller fails c n d → IsReduced d r → IsReduced c r
  IsReduced-Smaller c d r n s red = record {
    sublist = Sublist.trans red.sublist s.sublist;
    same_or_fails = inr (elim red.same_or_fails [ inl e ↦ ap fails e ∙ s.fails_still | inr f ↦ f ]);
    one_minimal = red.one_minimal;
  }

  pub reduce-Reduces :
      (fuel n : ℕ) (c : Bytes)
      → 2 ≤ n
      → (1 < length c → n ≤ length c)
      → rounds_for (length c) n < fuel
      → Reduces fuel n c
  unfolding reduce
  reduce-Reduces zero n c two fit enough = absurd (omega arith)
  reduce-Reduces (suc fuel) n c two fit enough = elim (Bool-cases (leb (length c) 1)) [
    | inl short ↦ (
      c,
      rw short,
      record {
        sublist = Sublist.refl c;
        same_or_fails = inl refl;
        one_minimal = λ h i lt. absurd (omega (arith, leb→le (length c) 1 short));
      },
    )
    | inr long ↦
        let big : 1 < length c = leb→lt (length c) 1 long in
        elim (Option-cases (first_part fails n c)) [
          | inr (d, found) ↦
              let s = first_part-Smaller fails n c d two (fit big) found in
              let (r, run, red) =
                reduce-Reduces fuel 2 d (omega arith) (λ h. h)
                  (omega (arith, s.shorter, square_step (length d) (length c) s.shorter)) in
              (r, rw (long, found) run, IsReduced-Smaller c d r 1 s red)
          | inl nothing ↦ elim (Option-cases (first_cut fails n c 0)) [
            | inr (d, found) ↦
                let s =
                  first_cut-Smaller fails n n 0 c d (omega arith) (omega (arith, fit big)) found in
                let n' : ℕ = max (n - 1) 2 in
                let (r, run, red) =
                  reduce-Reduces fuel n' d (omega arith) (λ h. omega (arith, s.room))
                    (omega (arith, s.shorter, square_step (length d) (length c) s.shorter)) in
                (r, rw (long, nothing, found) run, IsReduced-Smaller c d r (n - 1) s red)
            | inl stuck ↦ elim (Bool-cases (ltb n (length c))) [
              | inl coarse ↦
                  let gap : n < length c = ltb→lt n (length c) coarse in
                  let (r, run, red) =
                    reduce-Reduces fuel (min (n * 2) (length c)) c (omega arith) (λ h. omega arith)
                      (omega arith) in
                  (r, rw (long, nothing, stuck, coarse) run, red)
              | inr finest ↦
                  let all : n ≡ length c = omega (arith, ltb→le n (length c) finest, fit big) in
                  (
                    c,
                    rw (long, nothing, stuck, finest),
                    record {
                      sublist = Sublist.refl c;
                      same_or_fails = inl refl;
                      one_minimal = λ h i lt.
                          first_cut-none fails n 0 c (omega arith) stuck i (omega arith) lt;
                    },
                  )
            ]
          ]
        ]
  ]
