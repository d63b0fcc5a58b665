-- ===== src/Range/Threads/Contents/Rounds.antt =====
-- A round of `_range` begins, or the search ends: what is then in the files.
use diy_ddmin.Base.{
  ℕ, zero, suc, ◌+◌, ◌≤◌, ◌<◌, ◌≡◌, refl, ap, ◌∙◌, ◌⊎◌, inl, inr, Bool, true, false, some, List, [],
  ◌∷◌, arith, length, ◌==◌, Bool-cases, ==→eq,
}
use diy_ddmin.Paths.{Bytes, FilePath}
use diy_ddmin.Machine.{Host}
use diy_ddmin.Range.Increasing.Minimal.{IsFound}
use diy_ddmin.Range.Threads.{
  Worker, waiting, woken, holding, tested, placed, closing, freeing, System, start_size,
  origin_path, thread_n,
}
use diy_ddmin.Range.Threads.Totals.{total, one_if, is_busy}
use diy_ddmin.Range.Threads.Names.{Foreign, out_name}
use diy_ddmin.Range.Threads.Contents.{Each, is_hit, is_placing, Firm, Finds, Files}
use diy_ddmin.Range.Threads.Contents.Origins.{cleared-origins, cleared-others}

pub is_hit-le : (ws : List Worker) → total is_hit ws ≤ total is_busy ws
is_hit-le [] = omega arith
is_hit-le (waiting ∷ ws) = omega (arith, is_hit-le ws)
is_hit-le (woken ∷ ws) = omega (arith, is_hit-le ws)
is_hit-le (holding a job ∷ ws) = omega (arith, is_hit-le ws)
is_hit-le (tested a true ∷ ws) = omega (arith, is_hit-le ws)
is_hit-le (tested a false ∷ ws) = omega (arith, is_hit-le ws)
is_hit-le (placed a k ∷ ws) = omega (arith, is_hit-le ws)
is_hit-le (closing a ∷ ws) = omega (arith, is_hit-le ws)
is_hit-le (freeing a ∷ ws) = omega (arith, is_hit-le ws)

pub is_placing-le : (k : ℕ) (ws : List Worker) → total (is_placing k) ws ≤ total is_busy ws
is_placing-le k [] = omega arith
is_placing-le k (waiting ∷ ws) = omega (arith, is_placing-le k ws)
is_placing-le k (woken ∷ ws) = omega (arith, is_placing-le k ws)
is_placing-le k (holding a job ∷ ws) = omega (arith, is_placing-le k ws)
is_placing-le k (tested a f ∷ ws) = omega (arith, is_placing-le k ws)
is_placing-le k (placed a j ∷ ws) = ground (arith, is_placing-le k ws)
is_placing-le k (closing a ∷ ws) = omega (arith, is_placing-le k ws)
is_placing-le k (freeing a ∷ ws) = omega (arith, is_placing-le k ws)

-- An idle thread has found nothing.
idle-Finds :
    (fails : Bytes → Bool) (text : Bytes) (s : System) (i : ℕ) (ws : List Worker)
    → total is_busy ws ≡ 0
    → Each (Finds fails text s) i ws
idle-Finds fails text s i [] h = tt
idle-Finds fails text s i (waiting ∷ ws) h =
    (tt, idle-Finds fails text s (i + 1) ws (omega (arith, h)))
idle-Finds fails text s i (woken ∷ ws) h =
    (tt, idle-Finds fails text s (i + 1) ws (omega (arith, h)))
idle-Finds fails text s i (holding a job ∷ ws) h = absurd (omega (arith, h))
idle-Finds fails text s i (tested a f ∷ ws) h = absurd (omega (arith, h))
idle-Finds fails text s i (placed a k ∷ ws) h = absurd (omega (arith, h))
idle-Finds fails text s i (closing a ∷ ws) h = absurd (omega (arith, h))
idle-Finds fails text s i (freeing a ∷ ws) h =
    (tt, idle-Finds fails text s (i + 1) ws (omega (arith, h)))

-- A window that was tried counts.
pub total-hit :
    (f : ℕ → ℕ) (b : ℕ) (tried : List ℕ) → 1 ≤ total (λ k. one_if k b) tried → f b ≤ total f tried
total-hit f b [] h = absurd (omega (arith, h))
total-hit f b (k ∷ tried) h = elim (Bool-cases (k == b)) [
  | inl e ↦ omega (arith, ap f (==→eq k b e))
  | inr e ↦
      let away : one_if k b ≡ 0 = rw e refl in
      omega (arith, total-hit f b tried (omega (arith, h, away)))
]

module _ (fails : Bytes → Bool) (c : Bytes) where
  -- All threads are idle and have their copies of the input.
  pub record Ready (s : System) : Type 0 where
    pub text : Bytes
    pub sized : length text ≡ s.input_size
    pub found : IsFound fails c text
    pub current : s.world.files s.input_path ≡ some text
    pub foreign : Foreign s.input_path
    pub named : (i : ℕ) → s.out_files i ≡ out_name i (s.fail_stack i)
    pub origins : (i : ℕ) → i < thread_n → s.world.files (origin_path i) ≡ some text
    pub idle : total is_busy s.workers ≡ 0

  pub start_size-Files :
      (host : Host) (program_path : FilePath) (msg : Bytes) (r : ℕ) (s : System) (ready : Ready s)
      → (r ≡ 0 → (length ready.text ≤ 1) ⊎ Firm fails ready.text 1)
      → Files fails c (start_size host program_path msg r s)
  unfolding start_size
  start_size-Files host program_path msg zero s q least = record {
    text = q.text;
    sized = q.sized;
    found = q.found;
    current =
        cleared-others host program_path msg s.world s.input_path q.foreign.no_origin ∙ q.current;
    foreign = q.foreign;
    named = q.named;
    round = tt;
    ended = (cleared-origins host program_path msg s.world, least refl);
  }
  start_size-Files host program_path msg (suc r) s q least = record {
    text = q.text;
    sized = q.sized;
    found = q.found;
    current = q.current;
    foreign = q.foreign;
    named = q.named;
    round = record {
      positive = omega arith;
      origins = q.origins;
      finds = idle-Finds fails q.text _ 0 s.workers q.idle;
      listed = λ k h. absurd (omega (arith, h));
      counted = omega (arith, is_hit-le s.workers, q.idle);
    };
    ended = tt;
  }
