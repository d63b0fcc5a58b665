-- ===== src/MultiThread/Drawn/Moves.antt =====
-- A move of a thread keeps what holds while the threads draw.
use diy_ddmin.Base.{
  Bool-cases, ltb→lt, ltb→le, ℕ, suc, ◌+◌, ◌≤◌, ◌<◌, ◌≡◌, ap, subst, List, ◌∷◌, ◌++◌, inl, inr,
  arith, ltb, length, length-append, Option, none, some,
}
use diy_ddmin.Range.Threads.Totals.{total, total_swap, total_member}
use diy_ddmin.MultiThread.{
  Place, drawing, drawn, gone, Round, Move, moved, joinable, stopped, start_round, Work,
  thread_move, is_gone, by_thread, joined, Reachable, starts, goes_on,
}
use diy_ddmin.MultiThread.Drawn.{
  is_holding, has_drawn, has_window, is_late, Drawn, is_late-suc, not_late, start_round-Drawn,
}

module _ {A : Type 0} (work : Work A) (thread_n n : ℕ) (before after : List Place) where
  abbrev Kept : Move A → Type 0
  Kept (moved p s) = Drawn thread_n n (record s { threads = before ++ (p ∷ after) })
  Kept joinable = Unit
  Kept stopped = Unit

  module _ (s : Round A) (inv : Drawn thread_n n s) where
    abbrev Here : Place → Type 0
    Here p = s.threads ≡ before ++ (p ∷ after)

    abbrev rs : ℕ
    rs = s.cur_rs

    abbrev size : ℕ
    size = s.ip_size

    swap :
        (f : Place → ℕ) (p q : Place)
        → Here p
        → total f (before ++ (q ∷ after)) + f p ≡ total f s.threads + f q
    swap f p q e = total_swap f s.threads before p q after e

    length_kept : (p q : Place) → Here p → length (before ++ (q ∷ after)) ≡ thread_n
    length_kept p q e = omega (
      arith,
      inv.all,
      ap length e,
      length-append before (p ∷ after),
      length-append before (q ∷ after),
    )

    drawing-Kept : Here drawing → Kept (thread_move work (length before + 1) drawing s)
    unfolding thread_move
    drawing-Kept e = record {
      once = λ b. ground (arith, inv.once b, swap (has_drawn rs size b) drawing (drawn s.begin) e);
      worked = ground (arith, inv.worked, swap (has_window rs size) drawing (drawn s.begin) e);
      draws = omega (
        arith,
        inv.draws,
        swap is_holding drawing (drawn s.begin) e,
        swap is_gone drawing (drawn s.begin) e,
      );
      late = ground (
        arith,
        inv.late,
        is_late-suc s.begin s.threads,
        swap (is_late (s.begin + 1)) drawing (drawn s.begin) e,
      );
      closed =
          λ h. omega (arith, inv.closed (omega (arith, h, swap is_gone drawing (drawn s.begin) e)));
      positive = inv.positive;
      fits = inv.fits;
      size = inv.size;
      all = length_kept drawing (drawn s.begin) e;
    }

    -- A number behind the last window
    behind_last :
        (start : ℕ)
        → Here (drawn start)
        → size < start + rs
        → Drawn thread_n n (record s { threads = before ++ (gone ∷ after) })
    behind_last start e over =
        let known = total_member (is_late s.begin) s.threads before (drawn start) after e in
        let early : start < s.begin = not_late start s.begin (omega (arith, known, inv.late)) in
        record {
          once = λ b.
              ground (arith, inv.once b, over, swap (has_drawn rs size b) (drawn start) gone e);
          worked = ground (arith, inv.worked, over, swap (has_window rs size) (drawn start) gone e);
          draws = omega (
            arith,
            inv.draws,
            swap is_holding (drawn start) gone e,
            swap is_gone (drawn start) gone e,
          );
          late = omega (arith, inv.late, swap (is_late s.begin) (drawn start) gone e);
          closed = λ h. omega (arith, over, early);
          positive = inv.positive;
          fits = inv.fits;
          size = inv.size;
          all = length_kept (drawn start) gone e;
        }

    window :
        (start : ℕ) (a : A)
        → Here (drawn start)
        → start + rs ≤ size
        → Drawn thread_n n
            (record s { state = a; tried = start ∷ s.tried; threads = before ++ (drawing ∷ after) })
    window start a e inside = record {
      once = λ b.
          ground (arith, inv.once b, inside, swap (has_drawn rs size b) (drawn start) drawing e);
      worked =
          ground (arith, inv.worked, inside, swap (has_window rs size) (drawn start) drawing e);
      draws = omega (
        arith,
        inv.draws,
        swap is_holding (drawn start) drawing e,
        swap is_gone (drawn start) drawing e,
      );
      late = omega (arith, inv.late, swap (is_late s.begin) (drawn start) drawing e);
      closed = λ h. inv.closed (omega (arith, h, swap is_gone (drawn start) drawing e));
      positive = inv.positive;
      fits = inv.fits;
      size = inv.size;
      all = length_kept (drawn start) drawing e;
    }

    drawn-Kept :
        (start : ℕ)
        → Here (drawn start)
        → Kept (thread_move work (length before + 1) (drawn start) s)
    unfolding thread_move
    drawn-Kept start e = elim (Bool-cases (ltb size (start + rs))) [
      | inl over ↦ rw over (behind_last start e (ltb→lt _ _ over))
      | inr inside ↦
          rw inside (worked (work (length before + 1) start rs size s.state) e (ltb→le _ _ inside))
    ]
      where
        worked :
            (r : Option A)
            → Here (drawn start)
            → start + rs ≤ size
            → Kept (elim r [
              | some a ↦ moved drawing (record s { state = a; tried = start ∷ s.tried })
              | none ↦ stopped
            ])
        worked (some a) e inside = window start a e inside
        worked none e inside = tt

  thread_move-Drawn :
      (s : Round A) (p p' : Place) (s' : Round A)
      → Drawn thread_n n s
      → s.threads ≡ before ++ (p ∷ after)
      → thread_move work (length before + 1) p s ≡ moved p' s'
      → Drawn thread_n n (record s' { threads = before ++ (p' ∷ after) })
  unfolding thread_move
  thread_move-Drawn s p p' s' inv e run = subst Kept run (kept p e)
    where
      kept :
          (p : Place)
          → s.threads ≡ before ++ (p ∷ after)
          → Kept (thread_move work (length before + 1) p s)
      kept drawing e = drawing-Kept s inv e
      kept (drawn start) e = drawn-Kept s inv start e
      kept gone e = tt

pub Reachable-Drawn :
    {A : Type 0} (work : Work A) (thread_n n rs : ℕ) (a : A)
    → 1 ≤ rs
    → rs ≤ n
    → (s : Round A) → Reachable work thread_n n rs a s
    → Drawn thread_n n s
Reachable-Drawn work thread_n n rs a one fits s starts = start_round-Drawn thread_n n rs a one fits
Reachable-Drawn work thread_n n rs a one fits s'
      (goes_on r (by_thread {s = s} {s' = t} before p p' after e run)) =
    thread_move-Drawn work thread_n n before after s p p' t
      (Reachable-Drawn work thread_n n rs a one fits s r) e run
Reachable-Drawn work thread_n n rs a one fits s' (goes_on r (joined {s = s} {rs = r'} over next)) =
    let inv = Reachable-Drawn work thread_n n rs a one fits s r in
    subst (λ m. Drawn thread_n m (start_round thread_n s.ip_size (suc r') s.state)) inv.size
      (start_round-Drawn thread_n s.ip_size (suc r') s.state (omega arith)
        (omega (arith, inv.fits, next)))
