-- ===== src/Range/Threads/Contents/Choosing.antt =====
-- Where `_range` has waited for the end of a round: the next size, or a file that was found.
use diy_ddmin.Base.{
  Bool-cases, ℕ, ◌+◌, ◌-◌, ◌≤◌, ◌<◌, ◌≡◌, ◌%◌, refl, sym, ap, subst, ◌∙◌, Bool, Option, none, some,
  [], inl, inr, arith, length, ◌==◌, ==→eq, ==→ne, min, nil_of_length,
}
use native.Mathlib.Nat.{mod-lt}
use diy_ddmin.Base.Parts.{length-cut}
use diy_ddmin.Paths.{Bytes, FilePath}
use diy_ddmin.Machine.{Run, Host, World, done, fault, null_pointer, set_file, and_then, ◌>>◌}
use diy_ddmin.Machine.Healthy.{IsHealthy}
use diy_ddmin.Machine.Returns.{put-same}
use diy_ddmin.Oracle.Verdict.{reproduces}
use diy_ddmin.Range.Queue.{Node}
use diy_ddmin.Range.Increasing.Spec.{without}
use diy_ddmin.Range.Increasing.Minimal.{IsFound-below, IsFound-cut}
use diy_ddmin.Range.Threads.{
  Coordinator, pushing, choosing, System, Move, moved, blocked, stopped, coordinator_move, restart,
  start_size, rename, replace_origins, fail_path,
}
use diy_ddmin.Range.Threads.Names.{fail_path-Foreign}
use diy_ddmin.Range.Threads.Totals.{total, one_if, is_busy, begins_at}
use diy_ddmin.Range.Threads.Invariant.{Inv, is_window}
use diy_ddmin.Range.Threads.Rounds.{is_at-le}
use diy_ddmin.Range.Threads.Contents.{Failing, Listed, Files, Firm, hit}
use diy_ddmin.Range.Threads.Contents.Origins.{
  copy_origins-copies, cleared, cleared-origins, cleared-others,
}
use diy_ddmin.Range.Threads.Contents.Rounds.{total-hit, is_hit-le, is_placing-le, start_size-Files}

-- `malloc` gives no node for the next window.
abbrev pub NoMemory : ((ℕ → Option Node) → Option ℕ) → Coordinator → System → Type 0
NoMemory malloc (pushing b) s = (b + s.rs ≤ s.input_size) × (malloc s.store.nodes ≡ none)
NoMemory malloc _ s = ⊥

-- `_range` is in the place `co`.
abbrev pub at : Coordinator → System → System
at co s = record s { coordinator = co }

-- What a move of `_range` from the place `co` leads to is as it should be.
abbrev pub Kept :
    (Bytes → Bool)
    → Bytes
    → ((ℕ → Option Node) → Option ℕ)
    → Coordinator
    → System
    → Move (Unit {0})
    → Type 0
Kept fails c malloc co s (moved u t) = Files fails c t
Kept fails c malloc co s blocked = Unit
Kept fails c malloc co s (stopped o) = NoMemory malloc co s × (o ≡ fault null_pointer)

window_one : (rs n b : ℕ) → b + rs ≤ n → is_window rs n b ≡ 1
window_one rs n b h = ground arith

module _ {host : Host} {program_path : FilePath} {behave : Bytes → Run}
    (healthy : IsHealthy host program_path behave) (msg : Bytes) (c : Bytes)
    (malloc : (ℕ → Option Node) → Option ℕ) (rand : ℕ → ℕ) where
  abbrev fails : Bytes → Bool
  fails = reproduces behave msg

  rename-moves :
      (from to : FilePath) (d : Bytes) (w : World)
      → w.files from ≡ some d
      → rename host program_path msg from to w
        ≡ done tt (set_file to (some d) (set_file from none w))
  unfolding rename
  rename-moves from to d w h = rw (rename, h) refl

  module _ (s : System) (inv : Inv (at choosing s)) (f : Files fails c (at choosing s)) where
    pub idle : total is_busy s.workers ≡ 0
    idle = omega (arith, inv.unfinished, inv.over)

    -- Each window of the round was tried.
    tried_once : (b : ℕ) → b + s.rs ≤ s.input_size → 1 ≤ total (λ k. one_if k b) s.tried
    tried_once b inside =
        let empty : inv.cells ≡ [] =
          nil_of_length inv.cells (omega (arith, inv.unfinished, inv.over)) in
        let window : is_window s.rs s.input_size b ≡ 1 = window_one s.rs s.input_size b inside in
        omega
          (arith, inv.once b, window, is_at-le b s.workers, idle, ap (total (begins_at b)) empty)

    -- A round that found nothing has tried all windows, and none can be removed.
    pub none_found : s.fail_n ≡ 0 → Firm fails f.text s.rs
    none_found nothing b inside = elim (Bool-cases (fails (without b s.rs f.text))) [
      | inr good ↦ good
      | inl bad ↦
          let one : hit fails f.text s.rs b ≡ 1 = rw bad refl in
          let here : hit fails f.text s.rs b ≤ total (hit fails f.text s.rs) s.tried =
            total-hit (hit fails f.text s.rs) b s.tried
              (tried_once b (omega (arith, inside, f.sized))) in
          absurd (omega (arith, one, here, f.round.counted, nothing, is_hit-le s.workers, idle))
    ]

    next_size-Kept :
        s.fail_n ≡ 0 → Files fails c (start_size host program_path msg (s.rs - 1) (at choosing s))
    next_size-Kept nothing =
        start_size-Files fails c host program_path msg (s.rs - 1) (at choosing s)
          (record {
            text = f.text;
            sized = f.sized;
            found = f.found;
            current = f.current;
            foreign = f.foreign;
            named = f.named;
            origins = f.round.origins;
            idle = idle;
          })
          (λ last. inr (
            let one : s.rs ≡ 1 = omega (arith, last, f.round.positive) in
            subst (Firm fails f.text) one (none_found nothing)))

    -- The places that were counted are filled.
    found_place : (k : ℕ) → k < s.fail_n → Listed fails f.text (at choosing s) k
    found_place k h = elim (f.round.listed k h) [
      | inl placing ↦ absurd (omega (arith, placing, is_placing-le k s.workers, idle))
      | inr l ↦ l
    ]

    pub found_file : (k : ℕ) → k < s.fail_n → Failing fails f.text (at choosing s) (s.fail_arr k)
    found_file k h =
        let l = found_place k h in
        subst (Failing fails f.text (at choosing s)) (sym l.named) l.failing

    -- A file that was found replaces the input.
    restart-Kept :
        (k total_n : ℕ)
        → k < s.fail_n
        → Kept fails c malloc choosing s (
            restart host program_path msg total_n (at choosing s) (
              (rename host program_path msg (s.fail_arr k) (fail_path total_n)
                  >> replace_origins host program_path msg (fail_path total_n))
                s.world))
    unfolding restart replace_origins
    restart-Kept k total_n h =
        let l = found_place k h in
        let d = without l.failing.begin s.rs f.text in
        let to = fail_path total_n in
        let foreign = fail_path-Foreign total_n in
        let w1 = set_file to (some d) (set_file (s.fail_arr k) none s.world) in
        let source : s.world.files (s.fail_arr k) ≡ some d =
          ap s.world.files l.named ∙ l.failing.holds in
        let w2 = cleared host program_path msg w1 in
        let held : w2.files to ≡ some d =
          cleared-others host program_path msg w1 to foreign.no_origin
          ∙ put-same to (some d) (set_file (s.fail_arr k) none s.world).files in
        let (w3, copied, copies, others) =
          copy_origins-copies host program_path msg healthy.creates to d foreign.no_origin w2 held
            (cleared-origins host program_path msg w1) in
        let size = s.input_size - s.rs in
        let shorter : length d ≡ size =
          length-cut l.failing.begin s.rs f.text l.failing.inside ∙ ap (λ n. n - s.rs) f.sized in
        let ran =
          ap (λ r. and_then r (λ _. replace_origins host program_path msg to))
            (rename-moves (s.fail_arr k) to d s.world source)
          ∙ copied in
        subst
          (λ r.
            Kept fails c malloc choosing s
              (restart host program_path msg total_n (at choosing s) r))
          (sym ran)
          (start_size-Files fails c host program_path msg (min s.rs (size - 1)) _
            (record {
              text = d;
              sized = shorter;
              found = IsFound-below fails f.found (
                  IsFound-cut fails s.rs l.failing.begin f.text l.failing.inside
                    l.failing.reproduces);
              current = others to foreign.no_origin ∙ held;
              foreign = foreign;
              named = f.named;
              origins = copies;
              idle = idle;
            })
            (λ least. inl (omega (arith, least, shorter, f.round.positive))))

    pub choosing-Kept :
        Kept fails c malloc choosing s
          (coordinator_move host program_path msg malloc rand choosing (at choosing s))
    unfolding coordinator_move
    choosing-Kept = elim (Bool-cases (s.fail_n == 0)) [
      | inl z ↦ rw z (next_size-Kept (==→eq s.fail_n 0 z))
      | inr some_found ↦
          let ne = ==→ne s.fail_n 0 some_found in
          rw some_found (
            restart-Kept (rand (s.total_fail_n + 1) % s.fail_n) (s.total_fail_n + 1)
              (mod-lt (rand (s.total_fail_n + 1)) (omega (arith, ne))))
    ]
