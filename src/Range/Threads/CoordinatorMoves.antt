-- ===== src/Range/Threads/CoordinatorMoves.antt =====
-- A move of `_range` keeps the invariant.
use diy_ddmin.Base.{
  Option-cases, pred-cases, ℕ, suc, ◌+◌, ◌-◌, ◌≤◌, ◌<◌, ◌≡◌, refl, sym, ap, subst, ◌∙◌, Option,
  none, some, List, [], ◌∷◌, ◌++◌, inl, inr, ◌==◌, if◌then◌else◌, arith, length-append, Bool-cases,
  ==→eq, min, leb, leb→le, leb→lt, nil_of_length,
}
use diy_ddmin.Paths.{Bytes, FilePath}
use diy_ddmin.Machine.{Host, Outcome, done, exited, fault, out_of_fuel}
use diy_ddmin.Range.Queue.{Node}
use diy_ddmin.Range.Queue.Chain.{Cell, used}
use diy_ddmin.Range.Queue.Refine.{Holds, push_queue-Holds}
use diy_ddmin.Range.Threads.{
  Worker, Coordinator, pushing, posting, awaiting, choosing, finished, System, Move, moved, blocked,
  stopped, coordinator_move, restart,
}
use diy_ddmin.Range.Threads.Totals.{total, total-append, one_if, holds_at, cell_at, begins_at}
use diy_ddmin.Range.Threads.Invariant.{Inv, is_unpushed}
use diy_ddmin.Range.Threads.Rounds.{Quiet, start_size-Inv}

push_one :
    (rs n b k : ℕ)
    → b + rs ≤ n
    → one_if b k + is_unpushed (posting b) rs n k ≡ is_unpushed (pushing b) rs n k
push_one rs n b k fits = ground arith

next_one : (rs n b k : ℕ) → is_unpushed (pushing (b + 1)) rs n k ≡ is_unpushed (posting b) rs n k
next_one rs n b k = ground arith

none_left : (rs n b k : ℕ) → n < b + rs → is_unpushed (pushing b) rs n k ≡ 0
none_left rs n b k over = ground arith

last_signal : (existing k : ℕ) → suc k ≡ one_if existing 0 → (existing ≡ 0) × (k ≡ 0)
last_signal existing k h = ground arith

-- The new node has one owner, the queue.
owned_more :
    (nodes : ℕ → Option Node) (ws : List Worker) (cells : List Cell)
    → ((a : ℕ) → total (holds_at a) ws + total (cell_at a) cells ≤ used (nodes a))
    → (new : Cell) → nodes new.at ≡ none
    → (nodes' : ℕ → Option Node)
    → ((b : ℕ) → used (nodes' b) ≡ (if new.at == b then 1 else used (nodes b)))
    → (k : ℕ) → total (holds_at k) ws + total (cell_at k) (cells ++ (new ∷ [])) ≤ used (nodes' k)
owned_more nodes ws cells owned new free nodes' same k = elim (Bool-cases (new.at == k)) [
  | inl e ↦
      let empty : used (nodes k) ≡ 0 =
        ap (λ a. used (nodes a)) (sym (==→eq new.at k e)) ∙ ap used free in
      let one : one_if new.at k ≡ 1 = rw e refl in
      omega
        (arith, owned k, total-append (cell_at k) cells (new ∷ []), empty, one, rw e at (same k))
  | inr e ↦
      let none_at : one_if new.at k ≡ 0 = rw e refl in
      omega (arith, owned k, total-append (cell_at k) cells (new ∷ []), none_at, rw e at (same k))
]

module _ (host : Host) (program_path : FilePath) (msg : Bytes) where
  module _ (malloc : (ℕ → Option Node) → Option ℕ) (rand : ℕ → ℕ)
      (unused : (nodes : ℕ → Option Node) (a : ℕ) → malloc nodes ≡ some a → nodes a ≡ none) where
    abbrev Kept : Move (Unit {0}) → Type 0
    Kept (moved u s') = Inv s'
    Kept blocked = Unit
    Kept (stopped o) = Unit

    -- `_range` is in the place `co`.
    abbrev in_place : System → Coordinator → System
    in_place s co = record s { coordinator = co }

    abbrev Moves : System → Coordinator → Type 0
    Moves s co =
        Inv (in_place s co)
        → Kept (coordinator_move host program_path msg malloc rand co (in_place s co))

    pushing-Kept : (s : System) (b : ℕ) → Moves s (pushing b)
    unfolding coordinator_move
    pushing-Kept s b inv = elim (Bool-cases (leb (b + s.rs) s.input_size)) [
      | inr over ↦
          let out : s.input_size < b + s.rs = leb→lt _ _ over in
          rw over (record {
            cells = inv.cells;
            holds = inv.holds;
            signalled = inv.signalled;
            unfinished = omega (arith, inv.unfinished);
            ended = inv.ended;
            over = tt;
            owned = inv.owned;
            once = λ k. omega (arith, inv.once k, none_left s.rs s.input_size b k out);
            windows = inv.windows;
            fits = inv.fits;
            small = inv.small;
            all = inv.all;
          })
      | inl more ↦ elim (Option-cases (malloc s.store.nodes)) [
        | inl none_left ↦ rw (more, none_left) tt
        | inr (a, given) ↦
            let inside : b + s.rs ≤ s.input_size = leb→le _ _ more in
            let new : Cell = record { at = a; job = record { rs = s.rs; begin = b } } in
            let (store, pushed, holds, same) =
              push_queue-Holds s.store inv.cells new inv.holds (unused s.store.nodes a given)
                (omega (arith, inv.unfinished, inv.windows, inv.small)) in
            rw (more, given, pushed)
              (record {
                cells = inv.cells ++ (new ∷ []);
                holds = holds;
                signalled = omega (arith, inv.signalled, length-append inv.cells (new ∷ []));
                unfinished = omega (arith, inv.unfinished, length-append inv.cells (new ∷ []));
                ended = inv.ended;
                over = tt;
                owned = λ k.
                    owned_more s.store.nodes s.workers inv.cells inv.owned new
                      (unused s.store.nodes a given) store.nodes same k;
                once = λ k. omega (
                  arith,
                  inv.once k,
                  push_one s.rs s.input_size b k inside,
                  total-append (begins_at k) inv.cells (new ∷ []),
                );
                windows = inv.windows;
                fits = inv.fits;
                small = inv.small;
                all = inv.all;
              })
      ]
    ]

    posting-Kept : (s : System) (b : ℕ) → Moves s (posting b)
    unfolding coordinator_move
    posting-Kept s b inv = record {
      cells = inv.cells;
      holds = inv.holds;
      signalled = omega (arith, inv.signalled);
      unfinished = omega (arith, inv.unfinished);
      ended = inv.ended;
      over = tt;
      owned = inv.owned;
      once = λ k. omega (arith, inv.once k, next_one s.rs s.input_size b k);
      windows = inv.windows;
      fits = inv.fits;
      small = inv.small;
      all = inv.all;
    }

    awaiting-Kept : (s : System) → Moves s awaiting
    unfolding coordinator_move
    awaiting-Kept s inv = elim (pred-cases s.terminated_sem) [
      | inl z ↦ rw z tt
      | inr (k, z) ↦
          let over : (s.existing ≡ 0) × (k ≡ 0) = last_signal s.existing k (sym z ∙ inv.ended) in
          rw z (record {
            cells = inv.cells;
            holds = inv.holds;
            signalled = inv.signalled;
            unfinished = inv.unfinished;
            ended = over.1;
            over = over.0;
            owned = inv.owned;
            once = inv.once;
            windows = inv.windows;
            fits = inv.fits;
            small = inv.small;
            all = inv.all;
          })
    ]

    -- Behind the signal everything is done.
    quiet : (s : System) → Inv (in_place s choosing) → Quiet s
    quiet s inv =
        let empty : inv.cells ≡ [] =
          nil_of_length inv.cells (omega (arith, inv.unfinished, inv.over)) in
        record {
          holds = subst (Holds s.store) empty inv.holds;
          unsignalled = omega (arith, inv.signalled, inv.unfinished, inv.over);
          idle = omega (arith, inv.unfinished, inv.over);
          unended = inv.ended;
          closed = inv.over;
          owned = λ a. omega (arith, inv.owned a);
          small = inv.small;
          all = inv.all;
        }

    restart-Kept :
        (s : System) (number : ℕ) (r : Outcome (Unit {0}))
        → Inv (in_place s choosing)
        → Kept (restart host program_path msg number (in_place s choosing) r)
    unfolding restart
    restart-Kept s number (done u w) inv =
        let q = quiet s inv in
        let size : ℕ = s.input_size - s.rs in
        start_size-Inv host program_path msg (min s.rs (size - 1)) _
          (record {
            holds = q.holds;
            unsignalled = q.unsignalled;
            idle = q.idle;
            unended = q.unended;
            closed = q.closed;
            owned = q.owned;
            small = omega (arith, q.small);
            all = q.all;
          })
          (omega arith)
    restart-Kept s number (exited c w) inv = tt
    restart-Kept s number (fault f) inv = tt
    restart-Kept s number out_of_fuel inv = tt

    choosing-Kept : (s : System) → Moves s choosing
    unfolding coordinator_move
    choosing-Kept s inv =
        let q = quiet s inv in
        elim (Bool-cases (s.fail_n == 0)) [
          | inl z ↦ rw z (
              start_size-Inv host program_path msg (s.rs - 1) (in_place s choosing)
                (record {
                  holds = q.holds;
                  unsignalled = q.unsignalled;
                  idle = q.idle;
                  unended = q.unended;
                  closed = q.closed;
                  owned = q.owned;
                  small = q.small;
                  all = q.all;
                })
                (omega (arith, inv.fits)))
          | inr f ↦ rw f (restart-Kept s _ _ inv)
        ]

  -- A move of `_range` from a state with the invariant leads to one.
  pub coordinator_move-Inv :
      (malloc : (ℕ → Option Node) → Option ℕ) (rand : ℕ → ℕ)
      → ((nodes : ℕ → Option Node) (a : ℕ) → malloc nodes ≡ some a → nodes a ≡ none)
      → (s s' : System) → Inv s
      → coordinator_move host program_path msg malloc rand s.coordinator s ≡ moved tt s'
      → Inv s'
  unfolding coordinator_move
  coordinator_move-Inv malloc rand unused s s' inv run =
      subst (Kept malloc rand unused) run (kept s.coordinator inv)
    where
      kept : (co : Coordinator) → Moves malloc rand unused s co
      kept (pushing b) inv = pushing-Kept malloc rand unused s b inv
      kept (posting b) inv = posting-Kept malloc rand unused s b inv
      kept awaiting inv = awaiting-Kept malloc rand unused s inv
      kept choosing inv = choosing-Kept malloc rand unused s inv
      kept finished inv = tt
