-- ===== src/Oracle/Search/Infix.antt =====
-- `strstr` decides whether one string stands in another.
use diy_ddmin.Base.{
  ℕ, ◌≡◌, refl, ap, ◌∙◌, inl, inr, true, [], ◌∷◌, ◌++◌, arith, Bool-cases, append_assoc,
}
use diy_ddmin.Paths.{Bytes}
use diy_ddmin.Oracle.Search.{starts_with, strstr}

-- `m` stands somewhere in `s`.
pub record IsInfix (m s : Bytes) : Type 0 where
  pub before : Bytes
  pub behind : Bytes
  pub split : s ≡ before ++ (m ++ behind)

starts_with-split : (m s : Bytes) → starts_with m s ≡ true → (r : Bytes) × (s ≡ m ++ r)
unfolding starts_with
starts_with-split [] s h = (s, refl)
starts_with-split (c ∷ m) [] h = cc
starts_with-split (c ∷ m) (d ∷ s) h =
    let (r, e) = starts_with-split m s (ground arith) in (r, ground arith)

starts_with-append : (m r : Bytes) → starts_with m (m ++ r) ≡ true
unfolding starts_with
starts_with-append [] r = refl
starts_with-append (c ∷ m) r = ground (arith, starts_with-append m r)

pub IsInfix-cons : (c : ℕ) (m s : Bytes) → IsInfix m s → IsInfix m (c ∷ s)
IsInfix-cons c m s i = record {
  before = c ∷ i.before;
  behind = i.behind;
  split = ap (λ r. c ∷ r) i.split;
}

pub IsInfix-append : (m s t : Bytes) → IsInfix m s → IsInfix m (s ++ t)
IsInfix-append m s t i = record {
  before = i.before;
  behind = i.behind ++ t;
  split =
      ap (λ r. r ++ t) i.split
      ∙ append_assoc i.before (m ++ i.behind) t
      ∙ ap (λ r. i.before ++ r) (append_assoc m i.behind t);
}

pub IsInfix-prepend : (m s t : Bytes) → IsInfix m s → IsInfix m (t ++ s)
IsInfix-prepend m s [] i = i
IsInfix-prepend m s (c ∷ t) i = IsInfix-cons c m (t ++ s) (IsInfix-prepend m s t i)

pub strstr-IsInfix : (s m : Bytes) → strstr s m ≡ true → IsInfix m s
unfolding strstr
strstr-IsInfix [] m h =
    let (r, e) = starts_with-split m [] h in record { before = []; behind = r; split = e }
strstr-IsInfix (c ∷ s) m h = elim (Bool-cases (starts_with m (c ∷ s))) [
  | inl here ↦
      let (r, e) = starts_with-split m (c ∷ s) here in record { before = []; behind = r; split = e }
  | inr later ↦ IsInfix-cons c m s (strstr-IsInfix s m (rw later at h))
]

strstr-append : (a m r : Bytes) → strstr (a ++ (m ++ r)) m ≡ true
unfolding strstr
strstr-append [] [] [] = refl
strstr-append [] [] (c ∷ r) = refl
strstr-append [] (c ∷ m) r = rw (starts_with-append (c ∷ m) r)
strstr-append (c ∷ a) m r = ground (arith, strstr-append a m r)

pub IsInfix-strstr : (s m : Bytes) → IsInfix m s → strstr s m ≡ true
IsInfix-strstr s m i = ap (λ t. strstr t m) i.split ∙ strstr-append i.before m i.behind
