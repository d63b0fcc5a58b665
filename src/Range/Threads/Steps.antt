-- ===== src/Range/Threads/Steps.antt =====
-- The moves of all threads as one relation between states.
use diy_ddmin.Base.{ℕ, ◌≡◌, Option, List, ◌∷◌, ◌++◌, length}
use diy_ddmin.Paths.{Bytes, FilePath}
use diy_ddmin.Machine.{Host, World, Outcome}
use diy_ddmin.Range.Queue.{Node, Store}
use diy_ddmin.Range.Threads.{
  Worker, System, moved, stopped, worker_move, coordinator_move, start_range,
}

module _ (host : Host) (program_path : FilePath) (msg : Bytes)
    (malloc : (ℕ → Option Node) → Option ℕ) (rand : ℕ → ℕ) where
  pub data Step : System → System → Type 0 where
    by_worker :
        {s s' : System} (before : List Worker) (p p' : Worker) (after : List Worker)
        → s.workers ≡ before ++ (p ∷ after)
        → worker_move host program_path msg (length before) p s ≡ moved p' s'
        → Step s (record s' { workers = before ++ (p' ∷ after) })
    by_coordinator :
        {s s' : System}
        → coordinator_move host program_path msg malloc rand s.coordinator s ≡ moved tt s'
        → Step s s'

  -- A state that a run on `path` can come to, in whatever order the threads move, one move
  -- after the other.
  pub data Reachable (path : FilePath) (w : World) (store : Store) : System → Type 0 where
    starts :
        {s : System}
        → start_range host program_path msg path w store ≡ moved tt s
        → Reachable path w store s
    goes_on : {s s' : System} → Reachable path w store s → Step s s' → Reachable path w store s'

  -- How a run on `path` can end the whole program by itself: before the threads are made, by a move of
  -- one of them, or by a move of `_range`.
  pub data Stops (path : FilePath) (w : World) (store : Store) : Outcome FilePath → Type 0 where
    at_start :
        {o : Outcome FilePath}
        → start_range host program_path msg path w store ≡ stopped o
        → Stops path w store o
    by_a_worker :
        {s : System} {o : Outcome FilePath} (before : List Worker) (p : Worker)
        (after : List Worker)
        → Reachable path w store s
        → s.workers ≡ before ++ (p ∷ after)
        → worker_move host program_path msg (length before) p s ≡ stopped o
        → Stops path w store o
    by_the_coordinator :
        {s : System} {o : Outcome FilePath}
        → Reachable path w store s
        → coordinator_move host program_path msg malloc rand s.coordinator s ≡ stopped o
        → Stops path w store o
