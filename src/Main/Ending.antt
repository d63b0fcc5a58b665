-- ===== src/Main/Ending.antt =====
-- That `main` ends.
use diy_ddmin.Base.{
  ℕ, ◌+◌, ◌*◌, ◌<◌, ◌^◌, ◌≡◌, ◌≢◌, refl, inl, inr, Option, none, some, ◌∷◌, List, arith, length,
}
use diy_ddmin.Paths.{Bytes, FilePath}
use diy_ddmin.Machine.{Run, Host, World, Outcome}
use diy_ddmin.Machine.Healthy.{IsHealthy}
use diy_ddmin.Ddmin.Spec.Reduced.{rounds_for}
use diy_ddmin.Range.Queue.{Node, Store}
use diy_ddmin.Range.Threads.Contents.Completion.{range_has_end}
use diy_ddmin.Main.{
  Reducer, by_ddmin, by_range_increasing, by_range, unset, choose, parse, Reduces, ddmin_ends,
  range_increasing_ends, range_ends, range_stops_early, Ends, reduced,
}
use diy_ddmin.Main.Correct.{Prepared, HoldsOrNoMemory, main_result}

module _ {host : Host} {target : FilePath} {behave : Bytes → Run}
    (healthy : IsHealthy host target behave) (msg : Bytes) (malloc : (ℕ → Option Node) → Option ℕ)
    (rand : ℕ → ℕ)
    (unused : (nodes : ℕ → Option Node) (a : ℕ) → malloc nodes ≡ some a → nodes a ≡ none) (fuel : ℕ)
    (input : FilePath) (c : Bytes) (w : World) (store : Store)
    (prepared : Prepared target input c w) (enough : rounds_for (length c) 2 + 2 * length c < fuel)
    (numbered : fuel < 2 ^ 31) where
  some_end :
      (r : Reducer)
      → r ≢ unset
      → (o : Outcome FilePath) × Reduces host malloc rand fuel target input w store r (some msg) o
  some_end by_ddmin set = (_, ddmin_ends)
  some_end by_range_increasing set = (_, range_increasing_ends)
  some_end unset set = absurd (set refl)
  some_end by_range set =
      elim (range_has_end healthy msg malloc rand unused input w store c prepared.held
        (omega (arith, prepared.small)) prepared.foreign prepared.no_origins) [
          | inl (s, reached, over) ↦ (_, range_ends reached over)
          | inr stops ↦ (_, range_stops_early stops)
        ]

  -- On a healthy machine, where `malloc` gives unused addresses or NULL, in a directory with the program
  -- and an input of at most 4096 bytes, with `file_no` and `fail_no` 0 and no file that is named like
  -- a copy for a thread, where the input's name is shorter than 256 bytes and none of the names that
  -- a reducer gives to its files, with fuel for the loops of the two sequential reducers, and with
  -- the message as `argv[4]`: whichever of the three reducers `argv[3]` chooses, `main` has an end, for
  -- `range` by some order of moves that do not overlap, and this end is that it prints the name of a
  -- file with a subsequence of the input, which is the input or reproduces the error, or else a
  -- write to the NULL that `malloc` gave.
  pub main_has_end :
      (name mode : Bytes) (rest : List Bytes)
      → choose mode ≢ unset
      → (o : Outcome FilePath) × Ends host malloc rand fuel
          (name ∷ target ∷ input ∷ mode ∷ msg ∷ rest)
          w
          store
          o
        × HoldsOrNoMemory healthy msg malloc rand unused fuel input c w store prepared enough
            numbered o
  unfolding parse
  main_has_end name mode rest set =
      let (o, run) = some_end (choose mode) set in
      let ends : Ends host malloc rand fuel (name ∷ target ∷ input ∷ mode ∷ msg ∷ rest) w store o =
        reduced refl run in
      (
        o,
        ends,
        main_result healthy msg malloc rand unused fuel input c w store prepared enough numbered
            name mode rest o set ends,
      )
