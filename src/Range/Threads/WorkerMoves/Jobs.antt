-- ===== src/Range/Threads/WorkerMoves/Jobs.antt =====
-- A thread takes a job from the queue, and closes it.
use diy_ddmin.Base.{
  ℕ, ◌+◌, ◌≤◌, ◌≡◌, refl, ap, subst, none, List, [], ◌∷◌, ◌++◌, inl, inr, ◌==◌, arith, length,
  Bool-cases,
}
use diy_ddmin.Paths.{Bytes, FilePath}
use diy_ddmin.Machine.{Host}
use diy_ddmin.Range.Queue.{Job, set_node}
use diy_ddmin.Range.Queue.Chain.{Cell, Absent, Chain-set, used, set_node-used}
use diy_ddmin.Range.Queue.Refine.{Holds, pop_queue-Holds}
use diy_ddmin.Range.Threads.{
  Worker, waiting, woken, holding, closing, freeing, System, moved, worker_move,
}
use diy_ddmin.Range.Threads.Totals.{
  total, total_swap, total_member, one_if, is_woken, is_busy, holds_at, is_at, cell_at, begins_at,
  one_if_refl, total-Absent,
}
use diy_ddmin.Range.Threads.Invariant.{Inv, Once-same, count}
use diy_ddmin.Range.Threads.Signals.{signals-next, Over-next, same_one, used-le}
use diy_ddmin.Range.Threads.WorkerMoves.Plain.{Kept, Here, length_kept}

module _ (host : Host) (program_path : FilePath) (msg : Bytes) (before after : List Worker)
    (s : System) (inv : Inv s) where
  abbrev Moves : Worker → Type 0
  Moves p =
      Here before after s inv p
      → Kept before after (worker_move host program_path msg (length before) p s)

  -- Where a thread was woken, there is a job.
  pub woken-pops :
      Here before after s inv woken → (c : Cell) × (cs : List Cell) × (inv.cells ≡ c ∷ cs)
  woken-pops e =
      some_cell inv.cells
        (omega (arith, total_member is_woken s.workers before woken after e, inv.signalled))
    where
      some_cell :
          (cells : List Cell) → 1 ≤ length cells → (c : Cell) × (cs : List Cell) × (cells ≡ c ∷ cs)
      some_cell [] h = absurd (omega arith)
      some_cell (c ∷ cs) h = (c, cs, refl)

  -- It pops the job: `pop_queue` does not end the program.
  pub woken-moves :
      Here before after s inv woken
      → (a : ℕ) × (job : Job) × (s' : System) × (worker_move host program_path msg
            (length before)
            woken
            s
          ≡ moved (holding a job) s')
  unfolding worker_move
  woken-moves e =
      let (c, cs, split) = woken-pops e in
      let (store, n, popped, node, nodes, job, holds, freed) =
        pop_queue-Holds s.store c cs (subst (Holds s.store) split inv.holds) in
      (c.at, n.job, record s { store = store }, rw (worker_move, popped, node) refl)

  pub woken-Kept : Moves woken
  unfolding worker_move
  woken-Kept e =
      let (c, cs, split) = woken-pops e in
      let (store, n, popped, node, nodes, job, holds, freed) =
        pop_queue-Holds s.store c cs (subst (Holds s.store) split inv.holds) in
      let begin : n.job.begin ≡ c.job.begin = ap (λ j. j.begin) job in
      rw (worker_move, popped, node)
        (record {
          cells = cs;
          holds = holds;
          signalled = omega (
            arith,
            inv.signalled,
            ap length split,
            total_swap is_woken s.workers before woken (holding c.at n.job) after e,
          );
          unfinished = omega (
            arith,
            inv.unfinished,
            ap length split,
            total_swap is_busy s.workers before woken (holding c.at n.job) after e,
          );
          ended = inv.ended;
          over = inv.over;
          owned = λ k. omega (
            arith,
            inv.owned k,
            ap (total (cell_at k)) split,
            ap (λ m. used (m k)) nodes,
            total_swap (holds_at k) s.workers before woken (holding c.at n.job) after e,
          );
          once =
              Once-same s.rs s.input_size (count s.tried s.workers inv.cells)
                (count (s.tried) (before ++ ((holding c.at n.job) ∷ after)) (cs)) s.coordinator
                (λ b. omega (
                  arith,
                  ap (total (begins_at b)) split,
                  ap (λ j. one_if j b) begin,
                  total_swap (is_at b) s.workers before woken (holding c.at n.job) after e,
                ))
                inv.once;
          windows = inv.windows;
          fits = inv.fits;
          small = inv.small;
          all = length_kept before after s inv (woken) (holding c.at n.job) e;
        })

  pub closing-Kept : (a : ℕ) → Moves (closing a)
  unfolding worker_move
  closing-Kept a e =
      let some_left : 1 ≤ s.existing =
        omega (arith, inv.unfinished, total_member is_busy s.workers before (closing a) after e) in
      record {
        cells = inv.cells;
        holds = inv.holds;
        signalled = omega (
          arith,
          inv.signalled,
          total_swap is_woken s.workers before (closing a) (freeing a) after e,
        );
        unfinished = omega (
          arith,
          inv.unfinished,
          some_left,
          total_swap is_busy s.workers before (closing a) (freeing a) after e,
        );
        ended = signals-next s.coordinator s.existing s.terminated_sem some_left inv.over inv.ended;
        over = Over-next s.coordinator s.existing some_left inv.over;
        owned = λ k. omega (
          arith,
          inv.owned k,
          total_swap (holds_at k) s.workers before (closing a) (freeing a) after e,
        );
        once =
            Once-same s.rs s.input_size (count s.tried s.workers inv.cells)
              (count s.tried (before ++ (freeing a ∷ after)) inv.cells) s.coordinator
              (λ b.
                omega
                  (arith, total_swap (is_at b) s.workers before (closing a) (freeing a) after e))
              inv.once;
        windows = omega (arith, inv.windows);
        fits = inv.fits;
        small = inv.small;
        all = length_kept before after s inv (closing a) (freeing a) e;
      }

  pub freeing-Kept : (a : ℕ) → Moves (freeing a)
  unfolding worker_move
  freeing-Kept a e =
      let mine : 1 ≤ total (holds_at a) s.workers =
        omega
          (arith, total_member (holds_at a) s.workers before (freeing a) after e, one_if_refl a) in
      let freed_once : (k : ℕ)
          → total (holds_at k) (before ++ (waiting ∷ after)) + total (cell_at k) inv.cells
            ≤ used (set_node a none s.store.nodes k) =
        λ k. elim (Bool-cases (a == k)) [
          | inl h ↦ omega (
            arith,
            inv.owned k,
            used-le (s.store.nodes k),
            total_swap (holds_at k) s.workers before (freeing a) waiting after e,
            rw h at (set_node-used a none s.store.nodes k),
            same_one a k h,
          )
          | inr h ↦ omega (
            arith,
            inv.owned k,
            total_swap (holds_at k) s.workers before (freeing a) waiting after e,
            rw h at (set_node-used a none s.store.nodes k),
          )
        ] in
      let away : Absent a inv.cells =
        total-Absent a inv.cells (omega (arith, inv.owned a, mine, used-le (s.store.nodes a))) in
      record {
        cells = inv.cells;
        holds = record {
          chain = Chain-set s.store.nodes a none s.store.queue.front inv.cells away inv.holds.chain;
          last = inv.holds.last;
          counted = inv.holds.counted;
        };
        signalled = omega (
          arith,
          inv.signalled,
          total_swap is_woken s.workers before (freeing a) waiting after e,
        );
        unfinished = omega (
          arith,
          inv.unfinished,
          total_swap is_busy s.workers before (freeing a) waiting after e,
        );
        ended = inv.ended;
        over = inv.over;
        owned = λ k. freed_once k;
        once =
            Once-same s.rs s.input_size (count s.tried s.workers inv.cells)
              (count s.tried (before ++ (waiting ∷ after)) inv.cells) s.coordinator
              (λ b.
                omega (arith, total_swap (is_at b) s.workers before (freeing a) waiting after e))
              inv.once;
        windows = inv.windows;
        fits = inv.fits;
        small = inv.small;
        all = length_kept before after s inv (freeing a) waiting e;
      }
