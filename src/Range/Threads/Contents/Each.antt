-- ===== src/Range/Threads/Contents/Each.antt =====
-- One thread of all moves: what each knows is kept.
use diy_ddmin.Base.{ℕ, ◌+◌, ◌≤◌, ◌<◌, ◌≡◌, ◌≢◌, subst, List, [], ◌∷◌, ◌++◌, arith, length}
use diy_ddmin.Range.Threads.{Worker}
use diy_ddmin.Range.Threads.Contents.{Each}

module _ (P : ℕ → Worker → Type 0) where
  pub Each-at :
      (i k : ℕ) (before : List Worker) (p : Worker) (after : List Worker)
      → k ≡ i + length before
      → Each P i (before ++ (p ∷ after))
      → P k p
  Each-at i k [] p after e all = subst (λ j. P j p) (omega (arith, e)) all.0
  Each-at i k (q ∷ before) p after e all = Each-at (i + 1) k before p after (omega (arith, e)) all.1

  module _ (Q : ℕ → Worker → Type 0) (n : ℕ) where
    Each-later :
        (i : ℕ) (ws : List Worker)
        → i + length ws ≤ n
        → ((j : ℕ) (q : Worker) → i ≤ j → j < n → P j q → Q j q)
        → Each P i ws
        → Each Q i ws
    Each-later i [] few keep all = tt
    Each-later i (p ∷ ws) few keep all = (
      keep i p (omega arith) (omega (arith, few)) all.0,
      Each-later (i + 1) ws (omega (arith, few)) (λ j q h. keep j q (omega arith)) all.1,
    )

    -- The thread behind `before` comes to `p'`; the others stay where they are.
    pub Each-set :
        (i k : ℕ) (before : List Worker) (p p' : Worker) (after : List Worker)
        → k ≡ i + length before
        → i + length (before ++ (p ∷ after)) ≤ n
        → ((j : ℕ) (q : Worker) → j ≢ k → j < n → P j q → Q j q)
        → Q k p'
        → Each P i (before ++ (p ∷ after))
        → Each Q i (before ++ (p' ∷ after))
    Each-set i k [] p p' after e few keep new all = (
      subst (λ j. Q j p') (omega (arith, e)) new,
      Each-later (i + 1) after (omega (arith, few))
          (λ j q h. keep j q (λ s. absurd (omega (arith, s, e)))) all.1,
    )
    Each-set i k (q ∷ before) p p' after e few keep new all = (
      keep i q (λ s. absurd (omega (arith, s, e))) (omega (arith, few)) all.0,
      Each-set (i + 1) k before p p' after (omega (arith, e)) (omega (arith, few)) keep new all.1,
    )

    -- What every thread knows follows.
    pub Each-map :
        (i : ℕ) (ws : List Worker)
        → i + length ws ≤ n
        → ((j : ℕ) (q : Worker) → P j q → Q j q)
        → Each P i ws
        → Each Q i ws
    Each-map i ws few keep all = Each-later i ws few (λ j q from below h. keep j q h) all
