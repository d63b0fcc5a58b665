-- ===== src/Range/Queue/Chain.antt =====
-- The chain of nodes that a queue stands for.
use diy_ddmin.Base.{
  ℕ, ◌≡◌, ◌≢◌, refl, sym, ap, ◌∙◌, Option, none, some, List, [], ◌∷◌, ◌++◌, ◌==◌, if◌then◌else◌,
  eq→==, ne→==, ==→eq, Bool-cases, inl, inr,
}
use diy_ddmin.Range.Queue.{Job, Node, set_node}

-- A job at the address of its node.
pub record Cell : Type 0 where
  pub at : ℕ
  pub job : Job

pub set_node-same : (a : ℕ) (n : Option Node) (nodes : ℕ → Option Node) → set_node a n nodes a ≡ n
unfolding set_node
set_node-same a n nodes = rw (eq→== a a refl)

pub set_node-other :
    (a : ℕ) (n : Option Node) (nodes : ℕ → Option Node) (b : ℕ)
    → a ≢ b
    → set_node a n nodes b ≡ nodes b
unfolding set_node
set_node-other a n nodes b ne = rw (ne→== a b ne)

-- How many nodes there are at an address.
abbrev pub used : Option Node → ℕ
used none = 0
used (some n) = 1

pub set_node-used :
    (a : ℕ) (n : Option Node) (nodes : ℕ → Option Node) (b : ℕ)
    → used (set_node a n nodes b) ≡ (if a == b then used n else used (nodes b))
unfolding set_node
set_node-used a n nodes b = elim (Bool-cases (a == b)) [ inl e ↦ rw e refl | inr e ↦ rw e refl ]

-- A node that is replaced by another stays one.
pub set_node-used_same :
    (a : ℕ) (n m : Node) (nodes : ℕ → Option Node) (b : ℕ)
    → nodes a ≡ some m
    → used (set_node a (some n) nodes b) ≡ used (nodes b)
set_node-used_same a n m nodes b held = elim (Bool-cases (a == b)) [
  | inl e ↦
      set_node-used a (some n) nodes b
      ∙ rw e (ap used (sym held) ∙ ap (λ k. used (nodes k)) (==→eq a b e))
  | inr e ↦ set_node-used a (some n) nodes b ∙ rw e refl
]

-- No cell has this address.
abbrev pub Absent : ℕ → List Cell → Type 0
Absent a [] = Unit
Absent a (c ∷ cs) = (a ≢ c.at) × Absent a cs

-- From `front` the nodes hold these cells, at different addresses, and the last has no next.
abbrev pub Chain : (ℕ → Option Node) → Option ℕ → List Cell → Type 0
Chain nodes front [] = front ≡ none
Chain nodes front (c ∷ cs) =
    (next : Option ℕ) × (front ≡ some c.at)
    × (nodes c.at ≡ some (record { job = c.job; next = next }))
    × Absent c.at cs
    × Chain nodes next cs

-- The address of the last cell.
abbrev pub last_at : Cell → List Cell → ℕ
last_at c [] = c.at
last_at c (d ∷ cs) = last_at d cs

-- A node that is not in the chain may change.
pub Chain-set :
    (nodes : ℕ → Option Node) (a : ℕ) (n : Option Node) (front : Option ℕ) (cs : List Cell)
    → Absent a cs
    → Chain nodes front cs
    → Chain (set_node a n nodes) front cs
Chain-set nodes a n front [] away ch = ch
Chain-set nodes a n front (c ∷ cs) (ne, away) (next, here, node, apart, ch) = (
  next,
  here,
  set_node-other a n nodes c.at ne ∙ node,
  apart,
  Chain-set nodes a n next cs away ch,
)

pub Absent-snoc :
    (b : ℕ) (cs : List Cell) (new : Cell) → Absent b cs → b ≢ new.at → Absent b (cs ++ (new ∷ []))
Absent-snoc b [] new away ne = (ne, tt)
Absent-snoc b (c ∷ cs) new (ne', away) ne = (ne', Absent-snoc b cs new away ne)

-- A new node is put behind the last.
pub Chain-snoc :
    (nodes : ℕ → Option Node) (front : Option ℕ) (c : Cell) (cs : List Cell) (new : Cell)
    → Chain nodes front (c ∷ cs)
    → Absent new.at (c ∷ cs)
    → nodes new.at ≡ some (record { job = new.job; next = none })
    → (n : Node) × (nodes (last_at c cs) ≡ some n)
      × Chain
          (set_node (last_at c cs) (some (record n { next = some new.at })) nodes)
          front
          ((c ∷ cs) ++ (new ∷ []))
Chain-snoc nodes front c [] new (next, here, node, apart, ch) (ne, away) made =
    let n : Node = record { job = c.job; next = next } in
    let linked : Node = record n { next = some new.at } in
    (
      n,
      node,
      (
        some new.at,
        here,
        set_node-same c.at (some linked) nodes,
        ((λ e. ne (sym e)), tt),
        (
          none,
          refl,
          set_node-other c.at (some linked) nodes new.at (λ e. ne (sym e)) ∙ made,
          tt,
          refl,
        ),
      ),
    )
Chain-snoc nodes front c (d ∷ cs) new (next, here, node, apart, ch) (ne, away) made =
    let (n, held, ch') = Chain-snoc nodes next d cs new ch away made in
    (
      n,
      held,
      (
        next,
        here,
        set_node-other (last_at d cs) _ nodes c.at (last-ne c.at d cs apart) ∙ node,
        Absent-snoc c.at (d ∷ cs) new apart (λ e. ne (sym e)),
        ch',
      ),
    )
  where
    last-ne : (b : ℕ) (e : Cell) (es : List Cell) → Absent b (e ∷ es) → last_at e es ≢ b
    last-ne b e [] (ne, away) h = ne (sym h)
    last-ne b e (f ∷ es) (ne, away) h = last-ne b f es away h
