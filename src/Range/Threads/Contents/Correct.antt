-- ===== src/Range/Threads/Contents/Correct.antt =====
-- What `range` finds, in every order of moves that do not overlap.
use diy_ddmin.Base.{
  pred-cases, ℕ, ◌-◌, ◌≤◌, ◌<◌, ◌^◌, ◌≡◌, ◌≢◌, refl, sym, subst, ◌∙◌, ◌⊎◌, inl, inr, Bool, Option,
  none, some, arith, length,
}
use diy_ddmin.Paths.{Bytes, FilePath}
use diy_ddmin.Machine.{Run, Host, World, Outcome, fault, null_pointer}
use diy_ddmin.Machine.Healthy.{IsHealthy}
use diy_ddmin.Oracle.Verdict.{reproduces}
use diy_ddmin.Range.Queue.{Node, Store}
use diy_ddmin.Range.Increasing.Minimal.{IsFound, IsFound-here}
use diy_ddmin.Range.Threads.{
  Coordinator, choosing, finished, System, Move, moved, blocked, stopped, coordinator_move,
  start_range, first_round, origin_path, thread_n,
}
use diy_ddmin.Range.Threads.Steps.{
  Step, by_worker, by_coordinator, starts, goes_on, Stops, at_start, by_a_worker,
  by_the_coordinator,
}
use diy_ddmin.Range.Threads.Names.{Foreign}
use diy_ddmin.Range.Threads.Invariant.{Inv}
use diy_ddmin.Range.Threads.Safety.{Reached, Reachable-Inv}
use diy_ddmin.Range.Threads.Progress.{
  Alive, steps, job_stops, no_memory, restart_stops, range_progress,
}
use diy_ddmin.Range.Threads.Contents.{Files, Firm, Failing}
use diy_ddmin.Range.Threads.Contents.Transfer.{Failing-same}
use diy_ddmin.Range.Threads.Contents.Origins.{copy_origins-copies}
use diy_ddmin.Range.Threads.Contents.Rounds.{start_size-Files}
use diy_ddmin.Range.Threads.Contents.Advance
use diy_ddmin.Range.Threads.Contents.WorkerMoves.{worker_move-Files}
use diy_ddmin.Range.Threads.Contents.Choosing
use diy_ddmin.Range.Threads.Contents.CoordinatorMoves.{coordinator_move-Files}
use diy_ddmin.Range.Threads.Contents.Choosing.{NoMemory, none_found, found_file}

module _ {host : Host} {program_path : FilePath} {behave : Bytes → Run}
    (healthy : IsHealthy host program_path behave) (msg : Bytes)
    (malloc : (ℕ → Option Node) → Option ℕ) (rand : ℕ → ℕ)
    (unused : (nodes : ℕ → Option Node) (a : ℕ) → malloc nodes ≡ some a → nodes a ≡ none)
    (path : FilePath) (w : World) (store : Store) (c : Bytes) (held : w.files path ≡ some c)
    (small : length c < 2 ^ 31) (foreign : Foreign path)
    (new : (i : ℕ) → i < thread_n → w.files (origin_path i) ≡ none) where
  abbrev fails : Bytes → Bool
  fails = reproduces behave msg

  abbrev Starts : Move (Unit {0}) → Type 0
  Starts (moved u s) = Files fails c s
  Starts blocked = ⊥
  Starts (stopped o) = ⊥

  start_range-Files : Starts (start_range host program_path msg path w store)
  unfolding start_range first_round
  start_range-Files =
      let (w', run, copies, others) =
        copy_origins-copies host program_path msg healthy.creates path c foreign.no_origin w held
          new in
      rw (start_range, held, run, first_round)
        (start_size-Files fails c host program_path msg (length c - 1) _
          (record {
            text = c;
            sized = refl;
            found = IsFound-here fails c;
            current = others path foreign.no_origin ∙ held;
            foreign = foreign;
            named = λ i. refl;
            origins = copies;
            idle = refl;
          })
          (λ least. inl (omega (arith, least))))

  abbrev pub Reaches : System → Type 0
  Reaches s = Reached host program_path msg malloc rand unused path w store c held small s

  started : (m : Move (Unit {0})) → Starts m → (s : System) × (m ≡ moved tt s)
  started (moved u s) f = (s, refl)
  started blocked f = absurd f
  started (stopped o) f = absurd f

  -- `range` makes its threads.
  pub range_starts : (s : System) × (start_range host program_path msg path w store ≡ moved tt s)
  range_starts = started _ start_range-Files

  reached-Inv : (s : System) → Reaches s → Inv s
  reached-Inv s r =
      Reachable-Inv host program_path msg malloc rand unused path w store c held small s r

  Reachable-Files : (s : System) → Reaches s → Files fails c s
  Reachable-Files s (starts run) = subst Starts run start_range-Files
  Reachable-Files s' (goes_on r (by_worker {s = s} {s' = t} before p p' after e run)) =
      subst (Advance.Kept fails c before after) run
        (worker_move-Files healthy msg c before after s p (reached-Inv s r) (Reachable-Files s r) e)
  Reachable-Files s' (goes_on r (by_coordinator {s = s} run)) =
      subst (Choosing.Kept fails c malloc s.coordinator s) run (
        coordinator_move-Files healthy msg c malloc rand unused s (reached-Inv s r)
          (Reachable-Files s r))

  -- Only a `malloc` that gives NULL ends the program before the search is over.
  pub range_stops :
      (o : Outcome FilePath)
      → Stops host program_path msg malloc rand path w store o
      → o ≡ fault null_pointer
  range_stops o (at_start run) = elim (subst Starts run start_range-Files) [ ]
  range_stops o (by_a_worker {s = s} before p after r e run) =
      elim (subst (Advance.Kept fails c before after) run (
        worker_move-Files healthy msg c before after s p (reached-Inv s r) (Reachable-Files s r)
          e)) [ ]
  range_stops o (by_the_coordinator {s = s} r run) =
      (subst (Choosing.Kept fails c malloc s.coordinator s) run (
        coordinator_move-Files healthy msg c malloc rand unused s (reached-Inv s r)
          (Reachable-Files s r))).1

  -- A state in which `_range` is in the place `co`, and all that is known of it.
  at_place :
      (s : System) (co : Coordinator)
      → Reaches s
      → s.coordinator ≡ co
      → Inv (record s { coordinator = co }) × Files fails c (record s { coordinator = co })
  at_place s co r e =
      subst
        (λ place.
          Inv (record s { coordinator = place }) × Files fails c (record s { coordinator = place }))
        e (reached-Inv s r, Reachable-Files s r)

  -- On a healthy machine, where `malloc` gives unused addresses or NULL, for an input of less than
  -- 2 ^ 31 bytes whose name is none that `range` makes, with no file that is named like a copy for a
  -- thread, and with moves of the threads in any order that do not overlap, so that no thread forks
  -- while another one is between its own `fork` and its verdict, or stores into `fail_arr` while
  -- another one does: in every state that such moves lead to and in which the search is over,
  -- `range` returns the name of a file. That file has a subsequence of the input, which is the
  -- input itself or reproduces the error; it has at most one byte, or does not reproduce it any more
  -- without any single byte. The copies are gone.
  pub range_result :
      (s : System)
      → Reaches s
      → s.coordinator ≡ finished
      → (r : Bytes) × (s.world.files s.input_path ≡ some r)
        × IsFound fails c r
        × ((length r ≤ 1) ⊎ Firm fails r 1)
        × ((i : ℕ) → i < thread_n → s.world.files (origin_path i) ≡ none)
  range_result s r e =
      let (inv, f) = at_place s finished r e in (f.text, f.current, f.found, f.ended.1, f.ended.0)

  -- On a healthy machine, where `malloc` gives unused addresses or NULL, for an input of less than
  -- 2 ^ 31 bytes whose name is none that `range` makes, with no file that is named like a copy for a
  -- thread, and with moves of the threads in any order that do not overlap, so that no thread forks
  -- while another one is between its own `fork` and its verdict, or stores into `fail_arr` while
  -- another one does: in every state that such moves lead to and in which the search is not
  -- over, a thread can move, or `_range` is about to write to the NULL that `malloc` gave it.
  pub range_goes_on :
      (s : System)
      → Reaches s
      → s.coordinator ≢ finished
      → ((t : System) × Step host program_path msg malloc rand s t)
        ⊎ NoMemory malloc s.coordinator s
  range_goes_on s r going =
      alive (
        range_progress host program_path msg malloc rand unused path w store c held small s r going)
    where
      alive :
          Alive host program_path msg malloc rand s
          → ((t : System) × Step host program_path msg malloc rand s t)
            ⊎ NoMemory malloc s.coordinator s
      alive (steps {s' = t} step) = inl (t, step)
      alive (job_stops before after a job e o run) = absurd (
          subst (Advance.Kept fails c before after) run (
            worker_move-Files healthy msg c before after s _ (reached-Inv s r) (Reachable-Files s r)
              e))
      alive (no_memory b e asked run) =
          inr (subst (λ co. NoMemory malloc co s) (sym e) (asked, run))
      alive (restart_stops e o run) =
          let kept =
            coordinator_move-Files healthy msg c malloc rand unused s (reached-Inv s r)
              (Reachable-Files s r) in
          absurd (
            (subst (Choosing.Kept fails c malloc choosing s) run (
              subst
                (λ co.
                  Choosing.Kept fails c malloc co s
                    (coordinator_move host program_path msg malloc rand co s))
                e kept)).0)

  -- On a healthy machine, where `malloc` gives unused addresses or NULL, for an input of less than
  -- 2 ^ 31 bytes whose name is none that `range` makes, with no file that is named like a copy for a
  -- thread, and with moves of the threads in any order that do not overlap, so that no thread forks
  -- while another one is between its own `fork` and its verdict, or stores into `fail_arr` while
  -- another one does: in every state that such moves lead to and in which `_range` has just
  -- waited for the end of a round, each of the first `fail_n` places of `fail_arr` names a file that
  -- has the input without one window of this round's size and reproduces the error, and where
  -- `fail_n` is 0 no such window can be removed.
  pub range_round :
      (s : System)
      → Reaches s
      → s.coordinator ≡ choosing
      → (text : Bytes) × (s.world.files s.input_path ≡ some text)
        × (length text ≡ s.input_size)
        × ((k : ℕ) → k < s.fail_n → Failing fails text s (s.fail_arr k))
        × ((s.fail_n ≢ 0) ⊎ Firm fails text s.rs)
  range_round s r e =
      let (inv, f) = at_place s choosing r e in
      (
        f.text,
        f.current,
        f.sized,
        λ k h.
            Failing-same fails f.text (record s { coordinator = choosing }) s refl _ refl
              (found_file healthy msg c malloc rand s inv f k h),
        elim (pred-cases s.fail_n) [
          | inl nothing ↦ inr (none_found healthy msg c malloc rand s inv f nothing)
          | inr (k, z) ↦ inl (λ none_there. absurd (omega (arith, z, none_there)))
        ],
      )
