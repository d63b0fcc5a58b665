-- ===== src/Range/Queue/Refine.antt =====
-- The queue is a list of jobs: what is pushed comes out in the same order.
use diy_ddmin.Base.{
  ℕ, ◌+◌, ◌-◌, ◌%◌, ◌^◌, ◌<◌, ◌≡◌, refl, sym, ap, ◌∙◌, Option, none, some, List, [], ◌∷◌, ◌++◌,
  ◌==◌, if◌then◌else◌, arith, length, false, length-append, ne→==,
}
use diy_ddmin.Range.Queue.{
  Node, Store, ok, exits, set_node, link, init_queue, push_queue, pop_queue, free_node,
}
use diy_ddmin.Range.Queue.Chain.{
  Cell, used, set_node-used, set_node-used_same, Absent, Chain, last_at, set_node-same, Chain-set,
  Chain-snoc,
}

abbrev LastAt : Option ℕ → List Cell → Type 0
LastAt rear [] = Unit
LastAt rear (c ∷ cs) = rear ≡ some (last_at c cs)

-- The queue stands for these cells, in the order in which they will be popped.
pub record Holds (s : Store) (cs : List Cell) : Type 0 where
  pub chain : Chain s.nodes s.queue.front cs
  pub last : LastAt s.queue.rear cs
  pub counted : s.queue.count ≡ length cs

pub init_queue-Holds : (s : Store) → Holds (init_queue s) []
init_queue-Holds s = record { chain = refl; last = tt; counted = refl }

-- An address without a node is not in the chain.
unused-Absent :
    (nodes : ℕ → Option Node) (a : ℕ) (front : Option ℕ) (cs : List Cell)
    → nodes a ≡ none
    → Chain nodes front cs
    → Absent a cs
unused-Absent nodes a front [] free ch = tt
unused-Absent nodes a front (c ∷ cs) free (next, here, node, apart, ch) =
    (λ e. (let clash = sym free ∙ ap nodes e ∙ node in cc), unused-Absent nodes a next cs free ch)

last_at-snoc : (c : Cell) (cs : List Cell) (new : Cell) → last_at c (cs ++ (new ∷ [])) ≡ new.at
last_at-snoc c [] new = refl
last_at-snoc c (d ∷ cs) new = last_at-snoc d cs new

-- With a new node at an unused address, a push puts its job behind the others, as long as there are
-- fewer than 2 ^ 32 - 1 of them. No other address gets or loses a node.
pub push_queue-Holds :
    (s : Store) (cs : List Cell) (new : Cell)
    → Holds s cs
    → s.nodes new.at ≡ none
    → length cs + 1 < 2 ^ 32
    → (s' : Store) × (push_queue new.at new.job s ≡ ok tt s')
      × Holds s' (cs ++ (new ∷ []))
      × ((b : ℕ) → used (s'.nodes b) ≡ (if new.at == b then 1 else used (s.nodes b)))
unfolding push_queue link
push_queue-Holds s [] new holds unused few =
    let fresh : Node = record { job = new.job; next = none } in
    let one : (s.queue.count + 1) % 2 ^ 32 ≡ 1 = omega (arith, holds.counted) in
    (
      record {
        nodes = set_node new.at (some fresh) s.nodes;
        queue = record { count = 1; front = some new.at; rear = some new.at };
      },
      rw (one, holds.counted) refl,
      record {
        chain = (none, refl, set_node-same new.at (some fresh) s.nodes, tt, refl);
        last = refl;
        counted = refl;
      },
      λ b. set_node-used new.at (some fresh) s.nodes b,
    )
push_queue-Holds s (c ∷ cs) new holds unused few =
    let fresh : Node = record { job = new.job; next = none } in
    let away = unused-Absent s.nodes new.at s.queue.front (c ∷ cs) unused holds.chain in
    let nodes = set_node new.at (some fresh) s.nodes in
    let (n, held, chain) =
      Chain-snoc nodes s.queue.front c cs new
        (Chain-set s.nodes new.at (some fresh) s.queue.front (c ∷ cs) away holds.chain) away
        (set_node-same new.at (some fresh) s.nodes) in
    let more : (s.queue.count + 1) % 2 ^ 32 ≡ length (c ∷ cs) + 1 = omega (arith, holds.counted) in
    let full : (s.queue.count == 0) ≡ false =
      ne→== s.queue.count 0 (λ e. omega (arith, holds.counted)) in
    (
      record {
        nodes = set_node (last_at c cs) (some (record n { next = some new.at })) nodes;
        queue = record s.queue { count = length (c ∷ cs) + 1; rear = some new.at };
      },
      rw (full, holds.last, held, more) refl,
      record {
        chain = chain;
        last = ap some (sym (last_at-snoc c cs new));
        counted = sym (length-append (c ∷ cs) (new ∷ []));
      },
      λ b.
          set_node-used_same (last_at c cs) (record n { next = some new.at }) n nodes b held
          ∙ set_node-used new.at (some fresh) s.nodes b,
    )

LastAt-rest : (rear : Option ℕ) (c : Cell) (cs : List Cell) → LastAt rear (c ∷ cs) → LastAt rear cs
LastAt-rest rear c [] h = tt
LastAt-rest rear c (d ∷ cs) h = h

pub pop_queue-exits : (s : Store) → Holds s [] → pop_queue s ≡ exits
unfolding pop_queue
pop_queue-exits s holds = rw holds.counted refl

-- A pop gives the node of the job that was pushed first, and leaves the others and all nodes; to free
-- the popped node then changes nothing for the others.
pub pop_queue-Holds :
    (s : Store) (c : Cell) (cs : List Cell)
    → Holds s (c ∷ cs)
    → (s' : Store) × (n : Node) × (pop_queue s ≡ ok c.at s')
      × (s'.nodes c.at ≡ some n)
      × (s'.nodes ≡ s.nodes)
      × (n.job ≡ c.job)
      × Holds s' cs
      × Holds (free_node c.at s') cs
unfolding pop_queue
pop_queue-Holds s c cs holds =
    let (next, here, node, apart, ch) = holds.chain in
    let full : (s.queue.count == 0) ≡ false =
      ne→== s.queue.count 0 (λ e. omega (arith, holds.counted)) in
    let s' : Store = record s {
      queue = record s.queue { count = s.queue.count - 1; front = next };
    } in
    let less : s.queue.count - 1 ≡ length cs = omega (arith, holds.counted) in
    (
      s',
      record { job = c.job; next = next },
      rw (full, here, node) refl,
      node,
      refl,
      refl,
      record { chain = ch; last = LastAt-rest s.queue.rear c cs holds.last; counted = less },
      record {
        chain = Chain-set s.nodes c.at none next cs apart ch;
        last = LastAt-rest s.queue.rear c cs holds.last;
        counted = less;
      },
    )
