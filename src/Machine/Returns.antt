-- ===== src/Machine/Returns.antt =====
-- Total correctness of a command: it returns, and what then holds.
use diy_ddmin.Base.{◌≡◌, ◌≢◌, refl, Option}
use diy_ddmin.Paths.{Bytes, FilePath}
use diy_ddmin.Paths.Apart.{bytes_eq_refl, bytes_eq_ne}
use diy_ddmin.Machine.{World, Outcome, done, M, and_then, put}

pub data Returns {A : Type 0} (P : A → World → Type 0) : Outcome A → Type 0 where
  returns : {a : A} {w : World} → P a w → Returns P (done a w)

module _ {A : Type 0} {P : A → World → Type 0} where
  pub bind :
      {B : Type 0} {Q : B → World → Type 0} {r : Outcome A} {k : A → M B}
      → Returns P r
      → ((a : A) (w : World) → P a w → Returns Q (k a w))
      → Returns Q (and_then r k)
  bind (returns p) next = next _ _ p

  pub mono :
      {Q : A → World → Type 0} {r : Outcome A}
      → Returns P r
      → ((a : A) (w : World) → P a w → Q a w)
      → Returns Q r
  mono (returns p) weaken = returns (weaken _ _ p)

  -- What a command that returns ends in.
  pub result : {r : Outcome A} → Returns P r → (a : A) × (w : World) × (r ≡ done a w) × P a w
  result (returns {a} {w} p) = (a, w, refl, p)

module _ (p : FilePath) (c : Option Bytes) (fs : FilePath → Option Bytes) where
  pub put-same : put p c fs p ≡ c
  unfolding put
  put-same = rw (bytes_eq_refl p)

  pub put-other : (q : FilePath) → p ≢ q → put p c fs q ≡ fs q
  unfolding put
  put-other q ne = rw (bytes_eq_ne p q ne)
