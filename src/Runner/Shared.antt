-- ===== src/Runner/Shared.antt =====
-- `runner` of src/runner.c in several threads at once. They share the global `c_pid`, and the alarm
-- belongs to the whole process: its handler kills the child that `c_pid` names then. What the
-- children do but to end, and a `fork` that fails, is left out; the number of a process is not used twice.
pub mod Alarms
pub mod Turns
use diy_ddmin.Base.{ℕ, zero, suc, ◌+◌, ◌≡◌, ◌≢◌, Bool, true, false, ◌==◌, if◌then◌else◌}

pub data Child : Type 0 where
  unborn : Child
  running : Child
  ended : Child  -- and not waited for yet
  reaped : Child

-- Where a thread is in `runner`.
pub data Place : Type 0 where
  outside : Place
  forked : ℕ → Place  -- behind `fork`, with the process that it has made
  waits_for : (own target : ℕ) → Place  -- in `waitpid`, which was called with `target`

pub record Pool : Type 0 where
  pub c_pid : ℕ
  pub next_pid : ℕ
  pub alarmed : Bool
  pub children : ℕ → Child
  pub places : ℕ → Place

abbrev pub replace : {A : Type 0} → ℕ → A → (ℕ → A) → ℕ → A
replace i a f j = if i == j then a else f j

-- `c_pid = fork()` in thread `i`
unfoldable pub fork_child : ℕ → Pool → Pool
fork_child i s = record s {
  c_pid = s.next_pid;
  next_pid = s.next_pid + 1;
  children = replace s.next_pid running s.children;
  places = replace i (forked s.next_pid) s.places;
}

-- `alarm(3)`, and the call of `waitpid(c_pid, …)`, which reads the global.
unfoldable pub call_waitpid : (i own : ℕ) → Pool → Pool
call_waitpid i own s = record s {
  alarmed = true;
  places = replace i (waits_for own s.c_pid) s.places;
}

-- `waitpid` on a child that has ended; on one that another thread has waited for, it returns at once.
unfoldable pub return_waitpid : (i target : ℕ) → Pool → Pool
return_waitpid i target s = record s {
  children = replace target reaped s.children;
  places = replace i outside s.places;
}

-- A child that goes on is killed.
abbrev pub kill : Child → Child
kill running = ended
kill unborn = unborn
kill ended = ended
kill reaped = reaped

-- `kill_child`, the handler of the alarm
unfoldable pub kill_c_pid : Pool → Pool
kill_c_pid s = record s {
  alarmed = false;
  children = replace s.c_pid (kill (s.children s.c_pid)) s.children;
}

unfoldable pub end_child : ℕ → Pool → Pool
end_child k s = record s { children = replace k ended s.children }

-- The moves of the threads, the children and the clock. A child that hangs does not end by itself. `Free` says
-- when a thread may call `runner`.
pub data Step (hangs : ℕ → Bool) (Free : Pool → Type 0) : Pool → Pool → Type 0 where
  forks : {s : Pool} (i : ℕ) → s.places i ≡ outside → Free s → Step hangs Free s (fork_child i s)
  calls :
      {s : Pool} (i own : ℕ) → s.places i ≡ forked own → Step hangs Free s (call_waitpid i own s)
  returns :
      {s : Pool} (i own target : ℕ)
      → s.places i ≡ waits_for own target
      → s.children target ≢ running
      → Step hangs Free s (return_waitpid i target s)
  ends :
      {s : Pool} (k : ℕ)
      → s.children k ≡ running
      → hangs k ≡ false
      → Step hangs Free s (end_child k s)
  rings : {s : Pool} → s.alarmed ≡ true → Step hangs Free s (kill_c_pid s)

pub data Leads (hangs : ℕ → Bool) (Free : Pool → Type 0) : Pool → Pool → Type 0 where
  here : {s : Pool} → Leads hangs Free s s
  on : {s t u : Pool} → Leads hangs Free s t → Step hangs Free t u → Leads hangs Free s u

-- Any thread may call `runner` at any time, as those of `range` do.
abbrev pub Always : Pool → Type 0
Always s = Unit

-- A thread calls `runner` only while no other thread is in it.
abbrev pub Alone : Pool → Type 0
Alone s = (i : ℕ) → s.places i ≡ outside

-- Before the first call
abbrev pub idle_pool : Pool
idle_pool = record {
  c_pid = 0;
  next_pid = 1;
  alarmed = false;
  children = λ k. unborn;
  places = λ i. outside;
}
