-- ===== src/Range/Threads/Contents/Completion.antt =====
-- `range` comes to its end, from every state that moves lead to.
use mathlib.Core.WellFounded.{Acc}
use diy_ddmin.Base.{
  refl, leb, true, arith, ◌+◌, ℕ, ◌<◌, ◌^◌, ◌≡◌, ◌⊎◌, inl, inr, Option, none, some, length,
}
use diy_ddmin.Paths.{Bytes, FilePath}
use diy_ddmin.Machine.{Run, Host, World, fault, null_pointer}
use diy_ddmin.Machine.Healthy.{IsHealthy}
use diy_ddmin.Range.Queue.{Node, Store}
use diy_ddmin.Range.Threads.{
  Coordinator, pushing, posting, awaiting, choosing, finished, System, stopped, coordinator_move,
  origin_path, thread_n,
}
use diy_ddmin.Range.Threads.Contents.Places.{finished-cases}
use diy_ddmin.Range.Threads.Steps.{Step, goes_on, starts, Stops, by_the_coordinator}
use diy_ddmin.Range.Threads.Names.{Foreign}
use diy_ddmin.Range.Threads.Termination.{range_terminates}
use diy_ddmin.Range.Threads.Contents.Choosing.{NoMemory}
use diy_ddmin.Range.Threads.Contents.Correct.{Reaches, range_goes_on, range_starts}

-- A state in which the search is over, or `malloc` has given NULL
abbrev pub Over : ((ℕ → Option Node) → Option ℕ) → System → Type 0
Over malloc t = (t.coordinator ≡ finished) ⊎ NoMemory malloc t.coordinator t

-- Steps from one state to another
pub data Leads (host : Host) (program_path : FilePath) (msg : Bytes)
    (malloc : (ℕ → Option Node) → Option ℕ) (rand : ℕ → ℕ) : System → System → Type 0 where
  here : {s : System} → Leads host program_path msg malloc rand s s
  on :
      {s t u : System}
      → Step host program_path msg malloc rand s t
      → Leads host program_path msg malloc rand t u
      → Leads host program_path msg malloc rand s u

module _ {host : Host} {program_path : FilePath} {behave : Bytes → Run}
    (healthy : IsHealthy host program_path behave) (msg : Bytes)
    (malloc : (ℕ → Option Node) → Option ℕ) (rand : ℕ → ℕ)
    (unused : (nodes : ℕ → Option Node) (a : ℕ) → malloc nodes ≡ some a → nodes a ≡ none)
    (path : FilePath) (w : World) (store : Store) (c : Bytes) (held : w.files path ≡ some c)
    (small : length c < 2 ^ 31) (foreign : Foreign path)
    (new : (i : ℕ) → i < thread_n → w.files (origin_path i) ≡ none) where
  abbrev ReachesHere : System → Type 0
  ReachesHere s = Reaches healthy msg malloc rand unused path w store c held small foreign new s

  complete :
      (s : System)
      → Acc (λ t u. Step host program_path msg malloc rand u t) s
      → ReachesHere s
      → (t : System) × Leads host program_path msg malloc rand s t × Over malloc t
  complete s (Acc.intro s' later) r = elim (finished-cases s.coordinator) [
    | inl over ↦ (s, here, inl over)
    | inr going ↦
        elim (range_goes_on healthy msg malloc rand unused path w store c held small foreign new s r
          going) [
            | inr empty ↦ (s, here, inr empty)
            | inl (t, step) ↦
                let (u, leads, ends) = complete t (later t step) (goes_on r step) in
                (u, on step leads, ends)
          ]
  ]

  -- On a healthy machine, where `malloc` gives unused addresses or NULL, for an input of less than
  -- 2 ^ 31 bytes whose name is none that `range` makes, with no file that is named like a copy for a
  -- thread, and with moves of the threads in any order that do not overlap, so that no thread forks
  -- while another one is between its own `fork` and its verdict, or stores into `fail_arr` while
  -- another one does: in every state that such moves lead to moves lead on to one in which
  -- the search is over, or in which `malloc` gives NULL.
  pub range_completes :
      (s : System)
      → ReachesHere s
      → (t : System) × Leads host program_path msg malloc rand s t × Over malloc t
  range_completes s r =
      complete s
        (range_terminates host program_path msg malloc rand unused path w store c held small s r) r

  Leads-reaches :
      (s t : System) → Leads host program_path msg malloc rand s t → ReachesHere s → ReachesHere t
  Leads-reaches s t here r = r
  Leads-reaches s t (on {t = m} step later) r = Leads-reaches m t later (goes_on r step)

  null_stops :
      (co : Coordinator) (s : System)
      → NoMemory malloc co s
      → coordinator_move host program_path msg malloc rand co s ≡ stopped (fault null_pointer)
  unfolding coordinator_move
  null_stops (pushing b) s (asked, empty) =
      let more : leb (b + s.rs) s.input_size ≡ true = ground (arith, asked) in rw (more, empty) refl
  null_stops (posting b) s h = absurd h
  null_stops awaiting s h = absurd h
  null_stops choosing s h = absurd h
  null_stops finished s h = absurd h

  -- A run of `range` that ends: in a state in which the search is over, or by the NULL of `malloc`.
  pub range_has_end :
      ((s : System) × ReachesHere s × (s.coordinator ≡ finished))
      ⊎ Stops host program_path msg malloc rand path w store (fault null_pointer)
  range_has_end =
      let (s, begins) =
        range_starts healthy msg malloc rand unused path w store c held small foreign new in
      let (t, leads, over) = range_completes s (starts begins) in
      let r = Leads-reaches s t leads (starts begins) in
      elim over [
        | inl e ↦ inl (t, r, e)
        | inr empty ↦ inr (by_the_coordinator r (null_stops t.coordinator t empty))
      ]
