-- ===== src/Main.antt =====
-- src/main.c: the choice of a reducer by the command line, and what the program ends with.
pub mod Correct
pub mod Ending
use diy_ddmin.Base.{
  ℕ, ◌≡◌, refl, Bool, true, false, Option, none, some, List, [], ◌∷◌, ◌==◌, if◌then◌else◌,
}
use diy_ddmin.Paths.{Bytes, FilePath, codes, bytes_eq}
use diy_ddmin.Machine.{Host, World, Outcome, done, exited, fault, out_of_fuel, wild_pointer}
use diy_ddmin.Ddmin.{ddmin}
use diy_ddmin.Range.Increasing.{range_increasing}
use diy_ddmin.Range.Queue.{Node, Store}
use diy_ddmin.Range.Threads.{finished, System}
use diy_ddmin.Range.Threads.Steps.{Reachable, Stops}

-- The reducers, and a `result` that is never set
pub data Reducer : Type 0 where
  by_ddmin : Reducer
  by_range_increasing : Reducer
  by_range : Reducer
  unset : Reducer

-- `s[0]`, which is the NUL of an empty string
abbrev pub first_char : Bytes → ℕ
first_char [] = 0
first_char (c ∷ s) = c

-- The tests on `argv[3]`
unfoldable pub choose : Bytes → Reducer
choose mode =
    if first_char mode == 100
    then by_ddmin
    else if bytes_eq mode (codes "range_increasing")
    then by_range_increasing
    else if first_char mode == 114
    then by_range
    else unset

-- What `main` takes of its arguments; `argv[argc]` is NULL.
pub record Arguments : Type 0 where
  pub target : FilePath
  pub input : FilePath
  pub reducer : Reducer
  pub err_msg : Option Bytes

abbrev pub first_of : List Bytes → Option Bytes
first_of [] = none
first_of (a ∷ rest) = some a

-- `argc < 4` is none.
unfoldable pub parse : (argv : List Bytes) → Option Arguments
unfolding choose
parse (name ∷ target ∷ input ∷ mode ∷ rest) =
    some (record { target = target; input = input; reducer = choose mode; err_msg = first_of rest })
parse _ = none

module _ (host : Host) (malloc : (ℕ → Option Node) → Option ℕ) (rand : ℕ → ℕ) (fuel : ℕ) where
  -- What a reducer ends in; the threads of `range` may move in any order, one
  -- move after the other, and it ends at
  -- the end of its search or where a move of a thread ends the program. What a reducer does with the
  -- NULL of a missing message is left open.
  pub data Reduces (target input : FilePath) (w : World) (store : Store)
      : Reducer → Option Bytes → Outcome FilePath → Type 0 where
    ddmin_ends :
        {msg : Bytes}
        → Reduces target input w store by_ddmin (some msg) (ddmin host target msg fuel input w)
    range_increasing_ends :
        {msg : Bytes}
        → Reduces target input w store by_range_increasing
            (some msg)
            (range_increasing host target msg fuel input w)
    range_ends :
        {msg : Bytes} {s : System}
        → Reachable host target msg malloc rand input w store s
        → s.coordinator ≡ finished
        → Reduces target input w store by_range (some msg) (done s.input_path s.world)
    range_stops_early :
        {msg : Bytes} {o : Outcome FilePath}
        → Stops host target msg malloc rand input w store o
        → Reduces target input w store by_range (some msg) o
    frees_unset : {msg : Option Bytes} → Reduces target input w store unset msg (fault wild_pointer)

  -- How `main` may end: with the name that it prints, with a status, or in undefined behaviour.
  pub data Ends (argv : List Bytes) (w : World) (store : Store) : Outcome FilePath → Type 0 where
    usage : parse argv ≡ none → Ends argv w store (exited 1 w)
    reduced :
        {a : Arguments} {o : Outcome FilePath}
        → parse argv ≡ some a
        → Reduces a.target a.input w store a.reducer a.err_msg o
        → Ends argv w store o
