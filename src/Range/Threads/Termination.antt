-- ===== src/Range/Threads/Termination.antt =====
-- The threads of `range` come to an end: the input becomes shorter, or the windows become shorter,
-- or less of the round is left.
pub mod Measure
pub mod Moves
use mathlib.Core.WellFounded.{Acc}
use diy_ddmin.Base.{
  Option-cases, pred-cases, Bool-cases, leb, leb→le, ℕ, zero, suc, ◌+◌, ◌*◌, ◌-◌, ◌≤◌, ◌<◌, ◌^◌,
  ◌≡◌, refl, sym, ap, subst, true, false, Option, none, some, List, ◌∷◌, ◌++◌, ◌⊎◌, inl, inr, arith,
  length, min, ◌==◌,
}
use diy_ddmin.Paths.{Bytes, FilePath}
use diy_ddmin.Machine.{Host, World, Outcome, done, exited, fault, out_of_fuel}
use diy_ddmin.Range.Queue.{Node, Result, Store, pop_queue, push_queue, ok, exits, bad_pointer}
use diy_ddmin.Range.Threads.{
  Worker, waiting, woken, holding, tested, placed, closing, Coordinator, pushing, posting, awaiting,
  choosing, finished, System, Move, moved, blocked, stopped, worker_move, coordinator_move,
  start_size, restart, run_job, origin_path,
}
use diy_ddmin.Range.Threads.Steps.{Step, by_worker, by_coordinator, goes_on}
use diy_ddmin.Range.Threads.Totals.{total, total_swap}
use diy_ddmin.Range.Threads.Invariant.{unpushed, Fits}
use diy_ddmin.Range.Threads.Safety.{Reached, Reachable-Inv}
use diy_ddmin.Range.Threads.Termination.Measure.{
  left_of, left_of_round, left_sizes, left_moves, Less, shorter, smaller, nearer,
}
use diy_ddmin.Range.Threads.Termination.Moves.{
  Fewer, After, worker_move-Less, coordinator_move-Less,
}

module _ (host : Host) (program_path : FilePath) (msg : Bytes) where
  module _ (malloc : (ℕ → Option Node) → Option ℕ) (rand : ℕ → ℕ)
      (unused : (nodes : ℕ → Option Node) (a : ℕ) → malloc nodes ≡ some a → nodes a ≡ none)
      (path : FilePath) (w : World) (store : Store) (c : Bytes) (held : w.files path ≡ some c)
      (small : length c < 2 ^ 31) where
    abbrev Follows : System → System → Type 0
    Follows t s = Step host program_path msg malloc rand s t

    abbrev Reaches : System → Type 0
    Reaches s = Reached host program_path msg malloc rand unused path w store c held small s

    Step-Less : (s t : System) → Reaches s → Step host program_path msg malloc rand s t → Less t s
    Step-Less s t r (by_worker {s' = t'} before p p' after e run) =
        subst (Fewer host program_path msg before after s) run
          (worker_move-Less host program_path msg before after s p e)
    Step-Less s t r (by_coordinator run) =
        let inv =
          Reachable-Inv host program_path msg malloc rand unused path w store c held small s r in
        subst (After host program_path msg malloc rand s) run
          (coordinator_move-Less host program_path msg malloc rand s s.coordinator refl inv.fits)

    ends :
        (a b m : ℕ) (s : System)
        → s.input_size < a
        → left_sizes s.coordinator s.rs < b
        → left_moves s < m
        → Reaches s
        → Acc Follows s
    ends zero b m s ha hb hm r = absurd (omega (arith, ha))
    ends a zero m s ha hb hm r = absurd (omega (arith, hb))
    ends a b zero s ha hb hm r = absurd (omega (arith, hm))
    ends (suc a) (suc b) (suc m) s ha hb hm r = Acc.intro s (λ t step.
        let q = goes_on r step in
        elim (Step-Less s t r step) [
          | shorter h ↦
              ends a (left_sizes t.coordinator t.rs + 1) (left_moves t + 1) t (omega (arith, ha, h))
                (omega arith) (omega arith) q
          | smaller e h ↦
              ends (suc a) b (left_moves t + 1) t (omega (arith, ha, e)) (omega (arith, hb, h))
                (omega arith) q
          | nearer e f h ↦
              ends (suc a) (suc b) m t (omega (arith, ha, e)) (omega (arith, hb, f))
                (omega (arith, hm, h)) q
        ])

    -- Where `malloc` gives unused addresses or NULL, for an input of less than 2 ^ 31 bytes: from a
    -- reachable state no infinite sequence of moves leads on, whatever the order of the threads, the
    -- machine and `rand` are.
    pub range_terminates :
        (s : System) → Reaches s → Acc (λ t u. Step host program_path msg malloc rand u t) s
    range_terminates s r =
        ends (s.input_size + 1) (left_sizes s.coordinator s.rs + 1) (left_moves s + 1) s
          (omega arith) (omega arith) (omega arith) r
