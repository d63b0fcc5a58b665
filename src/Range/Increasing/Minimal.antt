-- ===== src/Range/Increasing/Minimal.antt =====
-- What the search finds: it ends, with a subsequence that still fails; where a text that has a
-- failing subsequence fails itself, the result has no failing proper subsequence.
use mathlib.Core.Logic.{∥∥₁_elim}
use mathlib.Core.Option.{some-injective}
use mathlib.Core.List.{Sublist, Sublistᴰ}
use mathlib.Core.List.Sublist
use mathlib.Core.Bool.{true≢false}
use native.Mathlib.Nat.{ℕ_set}
use native.Mathlib.Numerals.{unary_clauses}
use diy_ddmin.Base.{
  ℕ, zero, suc, ◌+◌, ◌-◌, ◌*◌, ◌≤◌, ◌<◌, ◌≡◌, ◌==◌, ==→eq, ==→ne, refl, sym, ap, subst, ◌∙◌, Bool,
  true, false, some, ◌⊎◌, inl, inr, [], ◌∷◌, ◌++◌, arith, leb, ltb, leb→le, leb→lt, ltb→lt, lt→ltb,
  Bool-cases, length, take, drop,
}
use diy_ddmin.Base.Parts.{length-cut}
use diy_ddmin.Paths.{Bytes}
use diy_ddmin.Ddmin.Spec.Cuts.{cut-sublist}
use diy_ddmin.Range.Increasing.Spec.{without, next_window, sweep, widen}

-- Another byte is cut out in front of the byte `b`.
without-without :
    (i b : ℕ) (c : Bytes) → i < b → Sublist (without i 1 (without b 1 c)) (without i 1 c)
without-without i zero c h = absurd (omega arith)
without-without zero (suc b) [] h = simp unary_clauses (Sublist.refl [])
without-without zero (suc b) (x ∷ c) h =
    let next : b + 1 ≡ suc b = omega arith in
    simp unary_clauses (subst (λ k. Sublist (take b c ++ drop k c) c) next (cut-sublist b 1 c))
without-without (suc i) (suc b) [] h = simp unary_clauses (Sublist.refl [])
without-without (suc i) (suc b) (x ∷ c) h =
    let both = without-without i b c (omega arith) in
    simp unary_clauses (Sublist.cons-cons x (simp unary_clauses at both))

-- A proper subsequence lacks a byte.
lacks-byte :
    {r d : Bytes} → Sublistᴰ r d → (r ≡ d) ⊎ ((i : ℕ) × (i < length d) × Sublist r (without i 1 d))
lacks-byte Sublistᴰ.slnil = inl refl
lacks-byte (Sublistᴰ.cons s) = inr (0, omega arith, ∣ s ∣₁)
lacks-byte (Sublistᴰ.cons-cons {a} {b = b} {l₁} {l₂} e s) = elim (lacks-byte s) [
  | inl same ↦ inl (ap (λ x. x ∷ l₁) e ∙ ap (λ l. b ∷ l) same)
  | inr (i, h, sub) ↦
      let next : i + 1 ≡ suc i = omega arith in
      let cut = subst (λ k. Sublist l₁ (take i l₂ ++ drop k l₂)) next sub in
      let both =
        subst (λ x. Sublist (a ∷ l₁) (x ∷ (take i l₂ ++ drop (suc i) l₂))) e
          (Sublist.cons-cons a cut) in
      inr (suc i, omega arith, simp unary_clauses both)
]

module _ (fails : Bytes → Bool) where
  -- A search that began in `c` has come to `r`.
  pub record IsFound (c r : Bytes) : Type 0 where
    pub sublist : Sublist r c
    pub size : length r ≤ length c
    pub same_or_fails : (r ≡ c) ⊎ (fails r ≡ true)

  pub IsFound-here : (c : Bytes) → IsFound c c
  IsFound-here c = record { sublist = Sublist.refl c; size = omega arith; same_or_fails = inl refl }

  pub IsFound-below : {c d r : Bytes} → IsFound c d → IsFound d r → IsFound c r
  IsFound-below f g = record {
    sublist = Sublist.trans g.sublist f.sublist;
    size = omega (arith, f.size, g.size);
    same_or_fails = elim g.same_or_fails [
      | inr bad ↦ inr bad
      | inl e ↦ elim f.same_or_fails [ inl e' ↦ inl (e ∙ e') | inr bad ↦ inr (ap fails e ∙ bad) ]
    ];
  }

  pub IsFound-cut :
      (rs begin : ℕ) (c : Bytes)
      → begin + rs ≤ length c
      → fails (without begin rs c) ≡ true
      → IsFound c (without begin rs c)
  IsFound-cut rs begin c fits bad = record {
    sublist = cut-sublist begin rs c;
    size = omega (arith, length-cut begin rs c fits);
    same_or_fails = inr bad;
  }

  -- One step of the sweep: fewer bytes are left to look at, and the start stays inside.
  record Step (rs begin : ℕ) (c : Bytes) (next : ℕ × Bytes) : Type 0 where
    found : IsFound c next.1
    inside : next.0 ≤ length next.1
    less : 2 * length next.1 - next.0 < 2 * length c - begin

  step :
      (rs begin : ℕ) (c : Bytes)
      → 1 ≤ rs
      → begin + rs ≤ length c
      → Step rs begin c (next_window fails rs begin c)
  step rs begin c one fits = elim (Bool-cases (fails (without begin rs c))) [
    | inl bad ↦
        let size : length (without begin rs c) ≡ length c - rs = length-cut begin rs c fits in
        rw bad (record {
          found = IsFound-cut rs begin c fits bad;
          inside = omega arith;
          less = omega arith;
        })
    | inr good ↦
        rw good (record { found = IsFound-here c; inside = omega arith; less = omega arith })
  ]

  pub sweep_ends :
      (fuel rs begin : ℕ) (c : Bytes)
      → 1 ≤ rs
      → begin ≤ length c
      → 2 * length c - begin < fuel
      → (r : Bytes) × (sweep fails fuel rs begin c ≡ some r) × IsFound c r
  unfolding sweep
  sweep_ends zero rs begin c one inside enough = absurd (omega arith)
  sweep_ends (suc fuel) rs begin c one inside enough =
      elim (Bool-cases (leb (begin + rs) (length c))) [
        | inr over ↦ (c, rw over, IsFound-here c)
        | inl fits ↦
            let next = next_window fails rs begin c in
            let s = step rs begin c one (leb→le _ _ fits) in
            let (r, run, found) =
              sweep_ends fuel rs next.0 next.1 one s.inside (omega (arith, s.less)) in
            (r, rw fits run, IsFound-below s.found found)
      ]

  pub widen_ends :
      (limit fuel rs : ℕ) (c : Bytes)
      → 1 ≤ rs
      → 2 * length c < limit
      → length c - rs < fuel
      → (r : Bytes) × (widen fails limit fuel rs c ≡ some r) × IsFound c r
  unfolding widen
  widen_ends limit zero rs c one enough rounds = absurd (omega arith)
  widen_ends limit (suc fuel) rs c one enough rounds = elim (Bool-cases (ltb rs (length c))) [
    | inr over ↦ (c, rw over, IsFound-here c)
    | inl more ↦
        let (d, run, found) = sweep_ends limit rs 0 c one (omega arith) (omega arith) in
        let (r, run', found') =
          widen_ends limit fuel (rs + 1) d (omega arith) (omega (arith, found.size))
            (omega (arith, ltb→lt _ _ more, found.size)) in
        (r, rw (more, run) run', IsFound-below found found')
  ]

  -- A text fails wherever a subsequence of it does.
  abbrev pub IsMonotone : Type 0
  IsMonotone = (a b : Bytes) → Sublist a b → fails a ≡ true → fails b ≡ true

  -- No proper subsequence of the text fails.
  pub record IsMinimal (r : Bytes) : Type 0 where
    pub smaller_good : (d : Bytes) → Sublist d r → length d < length r → fails d ≡ false

  module _ (monotone : IsMonotone) where
    still_good : (a b : Bytes) → Sublist a b → fails b ≡ false → fails a ≡ false
    still_good a b sub good = elim (Bool-cases (fails a)) [
      | inl bad ↦ absurd (true≢false (sym (monotone a b sub bad) ∙ good))
      | inr ok ↦ ok
    ]

    -- No single byte of `c` in front of `k` can be cut out.
    abbrev Kept : ℕ → Bytes → Type 0
    Kept k c = (i : ℕ) → i < k → i < length c → fails (without i 1 c) ≡ false

    sweep-Kept :
        (fuel begin : ℕ) (c r : Bytes)
        → sweep fails fuel 1 begin c ≡ some r
        → Kept begin c
        → Kept (length r) r
    unfolding sweep
    sweep-Kept zero begin c r h kept = cc
    sweep-Kept (suc fuel) begin c r h kept = elim (Bool-cases (leb (begin + 1) (length c))) [
      | inr over ↦
          subst (λ d. Kept (length d) d) (some-injective c r (rw over at h))
            (λ i lt in_c. kept i (omega (arith, leb→lt _ _ over)) in_c)
      | inl fits ↦ elim (Bool-cases (fails (without begin 1 c))) [
        | inl bad ↦
            sweep-Kept fuel ((begin + 1) - 1) (without begin 1 c) r (rw (fits, bad) at h)
              (λ i lt in_c.
                still_good (without i 1 (without begin 1 c)) (without i 1 c)
                  (without-without i begin c (omega arith))
                  (kept i (omega arith) (omega (arith, leb→le _ _ fits))))
        | inr good ↦ sweep-Kept fuel (begin + 1) c r (rw (fits, good) at h) (λ i lt in_c.
            elim (Bool-cases (i == begin)) [
              | inl e ↦ subst (λ j. fails (without j 1 c) ≡ false) (sym (==→eq i begin e)) good
              | inr ne ↦ kept i (omega (arith, ==→ne i begin ne)) in_c
            ])
      ]
    ]

    -- What fails below a text without superfluous bytes is the text itself.
    found_same : (c r : Bytes) → Kept (length c) c → IsFound c r → r ≡ c
    found_same c r kept found = elim found.same_or_fails [
      | inl e ↦ e
      | inr bad ↦ ∥∥₁_elim found.sublist (hlevel (ℕ_set)) (λ s. elim (lacks-byte s) [
        | inl e ↦ e
        | inr (i, lt, sub) ↦ absurd (true≢false (sym (monotone r _ sub bad) ∙ kept i lt lt))
      ])
    ]

    Kept-IsMinimal : (r : Bytes) → Kept (length r) r → IsMinimal r
    Kept-IsMinimal r kept = record {
      smaller_good = λ d sub lt. ∥∥₁_elim sub (hlevel) (λ s. elim (lacks-byte s) [
        | inl e ↦ absurd (omega (arith, ap length e))
        | inr (i, in_r, below) ↦ still_good d (without i 1 r) below (kept i in_r in_r)
      ]);
    }

    pub widen-IsMinimal :
        (limit fuel : ℕ) (c r : Bytes)
        → 1 < length c
        → 2 * length c < limit
        → length c ≤ fuel
        → widen fails limit fuel 1 c ≡ some r
        → IsMinimal r
    unfolding widen
    widen-IsMinimal limit zero c r two enough rounds h = absurd (omega arith)
    widen-IsMinimal limit (suc fuel) c r two enough rounds h =
        let (d, swept, found) = sweep_ends limit 1 0 c (omega arith) (omega arith) (omega arith) in
        let kept = sweep-Kept limit 0 c d swept (λ i lt in_c. absurd (omega arith)) in
        let (r', widened, found') =
          widen_ends limit fuel 2 d (omega arith) (omega (arith, found.size))
            (omega (arith, found.size)) in
        let same : r' ≡ r =
          some-injective r' r (sym widened ∙ (rw (lt→ltb 1 (length c) two, swept) at h)) in
        subst IsMinimal (sym (found_same d r' kept found') ∙ same) (Kept-IsMinimal d kept)
