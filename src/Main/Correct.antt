-- ===== src/Main/Correct.antt =====
-- What `main` ends in.
use mathlib.Core.List.{Sublist}
use diy_ddmin.Base.{
  ℕ, ◌+◌, ◌*◌, ◌≤◌, ◌<◌, ◌^◌, ◌≡◌, ◌≢◌, refl, sym, ap, subst, ◌∙◌, ◌⊎◌, inl, inr, Bool, true,
  Option, none, some, List, ◌∷◌, arith, length,
}
use mathlib.Core.Option.{some-injective}
use diy_ddmin.Paths.{Bytes, FilePath}
use diy_ddmin.Machine.{Run, Host, World, Outcome, done, fault, null_pointer}
use diy_ddmin.Machine.Healthy.{IsHealthy}
use diy_ddmin.Oracle.Verdict.{reproduces}
use diy_ddmin.Ddmin.{ddmin}
use diy_ddmin.Range.Increasing.{range_increasing}
use diy_ddmin.Ddmin.Fresh.{Fresh}
use diy_ddmin.Ddmin.Spec.Reduced.{rounds_for}
use diy_ddmin.Ddmin.Correct.{ddmin-reduces}
use diy_ddmin.Range.Increasing.Correct.{range_increasing-reduces}
use diy_ddmin.Range.Queue.{Node, Store}
use diy_ddmin.Range.Threads.{origin_path, thread_n, System, finished}
use diy_ddmin.Range.Threads.Steps.{Reachable, Stops}
use diy_ddmin.Range.Threads.Names.{Foreign}
use diy_ddmin.Range.Threads.Contents.Correct.{range_result, range_stops}
use diy_ddmin.Main.{
  Reducer, unset, choose, parse, Reduces, ddmin_ends, range_increasing_ends, range_ends,
  range_stops_early, frees_unset, Ends, usage, reduced,
}

-- What every reducer promises of the file with the name that `main` prints.
pub record Holds (fails : Bytes → Bool) (c : Bytes) (o : Outcome FilePath) : Type 0 where
  pub path : FilePath
  pub world : World
  pub text : Bytes
  pub ended : o ≡ done path world
  pub holds : world.files path ≡ some text
  pub sublist : Sublist text c
  pub same_or_fails : (text ≡ c) ⊎ (fails text ≡ true)

-- The directory as `main` should find it: the program is there, and an input of at most 4096 bytes
-- whose name is no name of a file that a reducer makes.
pub record Prepared (target input : FilePath) (c : Bytes) (w : World) : Type 0 where
  pub program : Bytes
  pub installed : w.files target ≡ some program
  pub held : w.files input ≡ some c
  pub small : length c ≤ 4096
  pub named : length input < 256
  pub fresh : Fresh 0 input
  pub foreign : Foreign input
  pub no_origins : (i : ℕ) → i < thread_n → w.files (origin_path i) ≡ none
  pub first_file : w.file_no ≡ 0
  pub first_fail : w.fail_no ≡ 0

module _ {host : Host} {target : FilePath} {behave : Bytes → Run}
    (healthy : IsHealthy host target behave) (msg : Bytes) (malloc : (ℕ → Option Node) → Option ℕ)
    (rand : ℕ → ℕ)
    (unused : (nodes : ℕ → Option Node) (a : ℕ) → malloc nodes ≡ some a → nodes a ≡ none) (fuel : ℕ)
    (input : FilePath) (c : Bytes) (w : World) (store : Store)
    (prepared : Prepared target input c w) (enough : rounds_for (length c) 2 + 2 * length c < fuel)
    (numbered : fuel < 2 ^ 31) where
  abbrev fails : Bytes → Bool
  fails = reproduces behave msg

  from_number : (k : ℕ) → Fresh k input
  from_number k = record { apart = λ j h. prepared.fresh.apart j (omega arith) }

  ddmin-Holds : Holds fails c (ddmin host target msg fuel input w)
  ddmin-Holds =
      let (p, w', r, run, holds, reduced_, kept) =
        ddmin-reduces healthy msg input c prepared.program w prepared.installed prepared.held
          prepared.named fuel prepared.small (from_number w.file_no) (omega (arith, enough))
          (omega (arith, numbered, prepared.first_file)) in
      record {
        path = p;
        world = w';
        text = r;
        ended = run;
        holds = holds;
        sublist = reduced_.sublist;
        same_or_fails = reduced_.same_or_fails;
      }

  range_increasing-Holds : Holds fails c (range_increasing host target msg fuel input w)
  range_increasing-Holds =
      let (p, w', r, run, holds, found, kept) =
        range_increasing-reduces healthy msg fuel input c w prepared.held
          (from_number (w.fail_no + 1)) (omega (arith, prepared.first_fail, prepared.small))
          (omega (arith, enough)) in
      record {
        path = p;
        world = w';
        text = r;
        ended = run;
        holds = holds;
        sublist = found.sublist;
        same_or_fails = found.same_or_fails;
      }

  range-Holds :
      (s : System)
      → Reachable host target msg malloc rand input w store s
      → s.coordinator ≡ finished
      → Holds fails c (done s.input_path s.world)
  range-Holds s reached over =
      let (r, holds, found, least, gone) =
        range_result healthy msg malloc rand unused input w store c prepared.held
          (omega (arith, prepared.small)) prepared.foreign prepared.no_origins s reached over in
      record {
        path = s.input_path;
        world = s.world;
        text = r;
        ended = refl;
        holds = holds;
        sublist = found.sublist;
        same_or_fails = found.same_or_fails;
      }

  -- A file as promised, or a write to the NULL that `malloc` has given for a node of the queue
  abbrev pub HoldsOrNoMemory : Outcome FilePath → Type 0
  HoldsOrNoMemory o = Holds fails c o ⊎ (o ≡ fault null_pointer)

  every_reducer :
      (r : Reducer) (m : Option Bytes) (o : Outcome FilePath)
      → r ≢ unset
      → m ≡ some msg
      → Reduces host malloc rand fuel target input w store r m o
      → HoldsOrNoMemory o
  every_reducer r m o set e ddmin_ends =
      subst (λ k. HoldsOrNoMemory (ddmin host target k fuel input w)) (sym (some-injective _ _ e))
        (inl ddmin-Holds)
  every_reducer r m o set e range_increasing_ends =
      subst (λ k. HoldsOrNoMemory (range_increasing host target k fuel input w))
        (sym (some-injective _ _ e)) (inl range_increasing-Holds)
  every_reducer r m o set e (range_ends {s = s} reached over) = inl (
      range-Holds s
        (subst (λ k. Reachable host target k malloc rand input w store s) (some-injective _ _ e)
          reached)
        over)
  every_reducer r m o set e (range_stops_early stop) = inr (
      range_stops healthy msg malloc rand unused input w store c prepared.held
        (omega (arith, prepared.small)) prepared.foreign prepared.no_origins o
        (subst (λ k. Stops host target k malloc rand input w store o) (some-injective _ _ e) stop))
  every_reducer r m o set e frees_unset = absurd (set refl)

  -- On a healthy machine, where `malloc` gives unused addresses or NULL, in a directory with the program
  -- and an input of at most 4096 bytes, with `file_no` and `fail_no` 0 and no file that is named like
  -- a copy for a thread, where the input's name is shorter than 256 bytes and none of the names that
  -- a reducer gives to its files, with fuel for the loops of the two sequential reducers, with the
  -- message as `argv[4]`, and with moves of the threads of `range` in any order that do not overlap,
  -- so that no thread forks while another one is between its own `fork` and its verdict, or stores
  -- into `fail_arr` while another one does: whichever of the three reducers `argv[3]` chooses, an end
  -- of `main` is that it prints the name of a file with a subsequence of the input, which is the input
  -- or reproduces the error, or else a write to the NULL that `malloc` gave.
  pub main_result :
      (name mode : Bytes) (rest : List Bytes) (o : Outcome FilePath)
      → choose mode ≢ unset
      → Ends host malloc rand fuel (name ∷ target ∷ input ∷ mode ∷ msg ∷ rest) w store o
      → HoldsOrNoMemory o
  unfolding parse
  main_result name mode rest o set (usage e) = absurd cc
  main_result name mode rest o set (reduced {a = a} e run) =
      let same = sym (some-injective _ _ e) in
      every_reducer a.reducer a.err_msg o (λ u. set (ap (λ b. b.reducer) (sym same) ∙ u))
        (ap (λ b. b.err_msg) same)
        (subst (λ b. Reduces host malloc rand fuel b.target b.input w store a.reducer a.err_msg o)
          same run)
