-- ===== src/Range/Threads/Totals.antt =====
-- Sums over the threads and over the queue.
use diy_ddmin.Base.{
  ℕ, ◌+◌, ◌≤◌, ◌≡◌, refl, sym, ap, ◌∙◌, List, [], ◌∷◌, ◌++◌, ◌==◌, if◌then◌else◌, arith, eq→==,
}
use diy_ddmin.Range.Queue.Chain.{Cell, Absent}
use diy_ddmin.Range.Threads.{Worker, waiting, woken, holding, tested, placed, closing, freeing}

module _ {ℓ} {A : Type ℓ} (f : A → ℕ) where
  abbrev pub total : List A → ℕ
  total [] = 0
  total (x ∷ xs) = f x + total xs

  pub total-append : (xs ys : List A) → total (xs ++ ys) ≡ total xs + total ys
  total-append [] ys = omega arith
  total-append (x ∷ xs) ys = omega (arith, total-append xs ys)

  -- One member is replaced.
  pub total_swap :
      (all before : List A) (p q : A) (after : List A)
      → all ≡ before ++ (p ∷ after)
      → total (before ++ (q ∷ after)) + f p ≡ total all + f q
  total_swap all before p q after e =
      omega (arith, ap total e, total-append before (p ∷ after), total-append before (q ∷ after))

  pub total_member :
      (all before : List A) (p : A) (after : List A) → all ≡ before ++ (p ∷ after) → f p ≤ total all
  total_member all before p after e = omega (arith, ap total e, total-append before (p ∷ after))

-- 1 for a number that is the other one.
abbrev pub one_if : ℕ → ℕ → ℕ
one_if a b = if a == b then 1 else 0

abbrev pub is_woken : Worker → ℕ
is_woken woken = 1
is_woken _ = 0

-- A thread that is not done with its job
abbrev pub is_busy : Worker → ℕ
is_busy waiting = 0
is_busy woken = 0
is_busy (freeing a) = 0
is_busy _ = 1

-- Whether a thread holds the node at an address
abbrev pub holds_at : ℕ → Worker → ℕ
holds_at b waiting = 0
holds_at b woken = 0
holds_at b (holding a job) = one_if a b
holds_at b (tested a failed) = one_if a b
holds_at b (placed a k) = one_if a b
holds_at b (closing a) = one_if a b
holds_at b (freeing a) = one_if a b

-- Whether a thread is about to test the window that begins there
abbrev pub is_at : ℕ → Worker → ℕ
is_at b (holding a job) = one_if job.begin b
is_at b _ = 0

abbrev pub cell_at : ℕ → Cell → ℕ
cell_at b c = one_if c.at b

abbrev pub begins_at : ℕ → Cell → ℕ
begins_at b c = one_if c.job.begin b

pub one_if_refl : (a : ℕ) → one_if a a ≡ 1
one_if_refl a = rw (eq→== a a refl)

pub total-Absent : (a : ℕ) (cs : List Cell) → total (cell_at a) cs ≡ 0 → Absent a cs
total-Absent a [] h = tt
total-Absent a (c ∷ cs) h = (
  λ e.
      (let clash : one_if c.at a ≡ 1 = ap (λ b. one_if b a) (sym e) ∙ one_if_refl a in
        absurd (omega arith)),
  total-Absent a cs (omega arith),
)
