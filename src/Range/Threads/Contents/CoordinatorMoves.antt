-- ===== src/Range/Threads/Contents/CoordinatorMoves.antt =====
-- A move of `_range` keeps what holds of the files; only a lack of memory ends it.
use diy_ddmin.Base.{
  Option-cases, pred-cases, Bool-cases, leb, leb→le, ℕ, ◌+◌, ◌≡◌, ◌≢◌, refl, Bool, Option, none,
  some, inl, inr, arith, length,
}
use diy_ddmin.Paths.{Bytes, FilePath}
use diy_ddmin.Machine.{Run, Host}
use diy_ddmin.Machine.Healthy.{IsHealthy}
use diy_ddmin.Oracle.Verdict.{reproduces}
use diy_ddmin.Range.Queue.{Node, Store}
use diy_ddmin.Range.Queue.Refine.{push_queue-Holds}
use diy_ddmin.Range.Threads.{
  Coordinator, pushing, posting, awaiting, choosing, finished, System, coordinator_move,
}
use diy_ddmin.Range.Threads.Invariant.{Inv}
use diy_ddmin.Range.Threads.Contents.{Finds, Files}
use diy_ddmin.Range.Threads.Contents.Each.{Each-map}
use diy_ddmin.Range.Threads.Contents.Transfer.{
  During-in, During-out, Ended-live, Finds-same, Listed-same,
}
use diy_ddmin.Range.Threads.Contents.Choosing.{at, Kept, choosing-Kept}

module _ {host : Host} {program_path : FilePath} {behave : Bytes → Run}
    (healthy : IsHealthy host program_path behave) (msg : Bytes) (c : Bytes)
    (malloc : (ℕ → Option Node) → Option ℕ) (rand : ℕ → ℕ)
    (unused : (nodes : ℕ → Option Node) (a : ℕ) → malloc nodes ≡ some a → nodes a ≡ none) where
  abbrev fails : Bytes → Bool
  fails = reproduces behave msg

  abbrev Moves : System → Coordinator → Type 0
  Moves s co =
      Inv (at co s)
      → Files fails c (at co s)
      → Kept fails c malloc co s (coordinator_move host program_path msg malloc rand co (at co s))

  -- The moves inside a round set no variable that has to do with the files.
  module _ (s : System) (co co' : Coordinator) (store : Store) (q_sem terminated_sem : ℕ)
      (live : co ≢ finished) (live' : co' ≢ finished) where
    abbrev later : System
    later = record s {
      store = store;
      q_sem = q_sem;
      terminated_sem = terminated_sem;
      coordinator = co';
    }

    carry : Files fails c (at co s) → Files fails c later
    carry f =
        let round = During-out co live f.round in
        record {
          text = f.text;
          sized = f.sized;
          found = f.found;
          current = f.current;
          foreign = f.foreign;
          named = f.named;
          round = During-in co' (record {
            positive = round.positive;
            origins = round.origins;
            finds =
                Each-map (Finds fails f.text (at co s)) (Finds fails f.text later)
                  (length s.workers) 0 s.workers (omega arith)
                  (λ j q h. Finds-same fails f.text (at co s) later refl j q refl refl h)
                  round.finds;
            listed = λ k h. elim (round.listed k h) [
              | inl some_thread ↦ inl some_thread
              | inr l ↦ inr (
                  Listed-same fails f.text (at co s) later refl k refl (λ i. omega arith)
                    (λ i time few former. refl) l)
            ];
            counted = round.counted;
          });
          ended = Ended-live fails f.text later co' live';
        }

  pushing-Kept : (s : System) (b : ℕ) → Moves s (pushing b)
  unfolding coordinator_move
  pushing-Kept s b inv f = elim (Bool-cases (leb (b + s.rs) s.input_size)) [
    | inr over ↦
        rw over
          (carry s (pushing b) awaiting s.store s.q_sem s.terminated_sem (λ e. cc) (λ e. cc) f)
    | inl more ↦ elim (Option-cases (malloc s.store.nodes)) [
      | inl empty ↦ rw (more, empty) ((leb→le _ _ more, empty), refl)
      | inr (a, given) ↦
          let (store, pushed, holds, same) =
            push_queue-Holds s.store inv.cells
              (record { at = a; job = record { rs = s.rs; begin = b } }) inv.holds
              (unused s.store.nodes a given)
              (omega (arith, inv.unfinished, inv.windows, inv.small)) in
          rw (more, given, pushed)
            (carry s (pushing b) (posting b) store s.q_sem s.terminated_sem (λ e. cc) (λ e. cc) f)
    ]
  ]

  posting-Kept : (s : System) (b : ℕ) → Moves s (posting b)
  unfolding coordinator_move
  posting-Kept s b inv f =
      carry s (posting b) (pushing (b + 1)) s.store (s.q_sem + 1) s.terminated_sem (λ e. cc)
        (λ e. cc) f

  awaiting-Kept : (s : System) → Moves s awaiting
  unfolding coordinator_move
  awaiting-Kept s inv f = elim (pred-cases s.terminated_sem) [
    | inl z ↦ rw z tt
    | inr (k, z) ↦ rw z (carry s awaiting choosing s.store s.q_sem k (λ e. cc) (λ e. cc) f)
  ]

  -- A move of `_range`, from a state whose files are as they should be.
  pub coordinator_move-Files :
      (s : System)
      → Inv s
      → Files fails c s
      → Kept fails c malloc s.coordinator s
          (coordinator_move host program_path msg malloc rand s.coordinator s)
  unfolding coordinator_move
  coordinator_move-Files s inv f = kept s.coordinator inv f
    where
      kept : (co : Coordinator) → Moves s co
      kept (pushing b) inv f = pushing-Kept s b inv f
      kept (posting b) inv f = posting-Kept s b inv f
      kept awaiting inv f = awaiting-Kept s inv f
      kept choosing inv f = choosing-Kept healthy msg c malloc rand s inv f
      kept finished inv f = tt
