-- ===== src/Range/Threads/Contents/Origins.antt =====
-- The copies of the input that `_range` makes for its threads, and removes.
use diy_ddmin.Base.{
  ℕ, zero, suc, ◌+◌, ◌≤◌, ◌<◌, ◌≡◌, ◌≢◌, refl, sym, ap, ◌∙◌, true, none, some, arith, inl, inr,
  ◌==◌, Bool-cases, ==→eq, ==→ne,
}
use diy_ddmin.Paths.{Bytes, FilePath}
use diy_ddmin.Machine.{Host, World, done, set_file}
use diy_ddmin.Machine.Returns.{put-same, put-other}
use diy_ddmin.Copy.{copy}
use diy_ddmin.Copy.Correct.{copy-Stored}
use diy_ddmin.Range.Threads.{origin_path, thread_n, without_origins, copy_origins}
use diy_ddmin.Range.Threads.Names.{origin_path-injective}

-- What holds for each of the four threads.
pub each_thread : (P : ℕ → Type 0) → P 0 → P 1 → P 2 → P 3 → (i : ℕ) → i < thread_n → P i
each_thread P p0 p1 p2 p3 zero h = p0
each_thread P p0 p1 p2 p3 (suc zero) h = p1
each_thread P p0 p1 p2 p3 (suc (suc zero)) h = p2
each_thread P p0 p1 p2 p3 (suc (suc (suc zero))) h = p3
each_thread P p0 p1 p2 p3 (suc (suc (suc (suc i)))) h = absurd (omega arith)

-- A file that is no copy of the input.
abbrev pub NoOrigin : FilePath → Type 0
NoOrigin q = (i : ℕ) → origin_path i ≢ q

apart : (i j : ℕ) → i ≢ j → origin_path i ≢ origin_path j
apart i j ne e = ne (origin_path-injective i j e)

module _ (host : Host) (program_path : FilePath) (msg : Bytes) where
  abbrev pub cleared : World → World
  cleared w = without_origins host program_path msg w

  pub cleared-origins :
      (w : World) (i : ℕ) → i < thread_n → (cleared w).files (origin_path i) ≡ none
  cleared-origins w =
      let w0 = set_file (origin_path 0) none w in
      let w1 = set_file (origin_path 1) none w0 in
      let w2 = set_file (origin_path 2) none w1 in
      let under : (i j : ℕ) (v : World)
          → i ≢ j
          → v.files (origin_path j) ≡ none
          → (set_file (origin_path i) none v).files (origin_path j) ≡ none =
        λ i j v ne h. put-other (origin_path i) none v.files (origin_path j) (apart i j ne) ∙ h in
      let here : (i : ℕ) (v : World)
          → (set_file (origin_path i) none v).files (origin_path i) ≡ none =
        λ i v. put-same (origin_path i) none v.files in
      each_thread (λ i. (cleared w).files (origin_path i) ≡ none)
        (under 3 0 w2 (λ e. cc) (under 2 0 w1 (λ e. cc) (under 1 0 w0 (λ e. cc) (here 0 w))))
        (under 3 1 w2 (λ e. cc) (under 2 1 w1 (λ e. cc) (here 1 w0)))
        (under 3 2 w2 (λ e. cc) (here 2 w1)) (here 3 w2)

  pub cleared-others : (w : World) (q : FilePath) → NoOrigin q → (cleared w).files q ≡ w.files q
  cleared-others w q other =
      put-other (origin_path 3) none _ q (other 3)
      ∙ put-other (origin_path 2) none _ q (other 2)
      ∙ put-other (origin_path 1) none _ q (other 1)
      ∙ put-other (origin_path 0) none _ q (other 0)

  module _ (creates : (q : FilePath) → host.can_create q ≡ true) (p : FilePath) (c : Bytes)
      (foreign : NoOrigin p) (w : World) (held : w.files p ≡ some c) where
    -- The first `k` copies are made.
    record Copied (k : ℕ) (w' : World) : Type 0 where
      copies : (i : ℕ) → i < k → w'.files (origin_path i) ≡ some c
      missing : (i : ℕ) → k ≤ i → i < thread_n → w'.files (origin_path i) ≡ none
      others : (q : FilePath) → NoOrigin q → w'.files q ≡ w.files q

    Copied-next :
        (k : ℕ) (v : World)
        → k < thread_n
        → Copied k v
        → (v' : World) × (copy host p (origin_path k) v ≡ done tt v') × Copied (k + 1) v'
    Copied-next k v few d =
        let (v', run, st) =
          copy-Stored host p (origin_path k) c v (d.others p foreign ∙ held)
            (d.missing k (omega arith) few) (creates (origin_path k)) in
        (
          v',
          run,
          record {
            copies = λ i h. elim (Bool-cases (k == i)) [
              | inl e ↦ ap (λ j. v'.files (origin_path j)) (sym (==→eq k i e)) ∙ st.holds
              | inr e ↦
                  let ne = ==→ne k i e in
                  st.others (origin_path i) (apart k i ne) ∙ d.copies i (omega (arith, h, ne))
            ];
            missing = λ i h below.
                st.others (origin_path i) (apart k i (λ e. absurd (omega (arith, e, h))))
                ∙ d.missing i (omega (arith, h)) below;
            others = λ q other. st.others q (other k) ∙ d.others q other;
          },
        )

    -- All copies are made where none is there, and other files are as before.
    pub copy_origins-copies :
        ((i : ℕ) → i < thread_n → w.files (origin_path i) ≡ none)
        → (w' : World) × (copy_origins host program_path msg p w ≡ done tt w')
          × ((i : ℕ) → i < thread_n → w'.files (origin_path i) ≡ some c)
          × ((q : FilePath) → NoOrigin q → w'.files q ≡ w.files q)
    unfolding copy_origins
    copy_origins-copies new =
        let (w0, run0, d0) = Copied-next 0 w (omega arith) (record {
          copies = λ i h. absurd (omega arith);
          missing = λ i h below. new i below;
          others = λ q other. refl;
        }) in
        let (w1, run1, d1) = Copied-next 1 w0 (omega arith) d0 in
        let (w2, run2, d2) = Copied-next 2 w1 (omega arith) d1 in
        let (w3, run3, d3) = Copied-next 3 w2 (omega arith) d2 in
        (w3, rw (run0, run1, run2, run3) refl, d3.copies, d3.others)
