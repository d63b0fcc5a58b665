-- ===== src/MultiThread/Tickets.antt =====
-- What the rounds of `thread` do: all windows of each size, each of them once, and then they end.
use mathlib.Core.WellFounded.{Acc}
use diy_ddmin.Base.{
  Bool-cases, ltb→lt, ltb→le, leb→le, leb→lt, ℕ, zero, suc, ◌+◌, ◌*◌, ◌-◌, ◌≤◌, ◌<◌, ◌≡◌, refl,
  subst, List, [], ◌∷◌, ◌++◌, inl, inr, arith, ltb, leb, length, Option, none, some,
}
use diy_ddmin.Range.Threads.Totals.{total, total_swap, one_if}
use diy_ddmin.Range.Threads.Invariant.{is_window}
use diy_ddmin.MultiThread.{
  Place, drawing, drawn, gone, Round, Move, moved, joinable, stopped, start_round, Work,
  thread_move, is_gone, Step, by_thread, joined, Reachable, count_loop,
}
use diy_ddmin.MultiThread.Drawn.{is_holding, has_drawn, has_window}
use diy_ddmin.MultiThread.Drawn.Moves.{Reachable-Drawn}

is_gone-le : (ps : List Place) → total is_gone ps ≤ length ps
is_gone-le [] = omega arith
is_gone-le (drawing ∷ ps) = omega (arith, is_gone-le ps)
is_gone-le (drawn k ∷ ps) = omega (arith, is_gone-le ps)
is_gone-le (gone ∷ ps) = omega (arith, is_gone-le ps)

-- With all threads gone, none has anything.
total_gone :
    (f : Place → ℕ) (ps : List Place) → f gone ≡ 0 → total is_gone ps ≡ length ps → total f ps ≡ 0
total_gone f [] h all = refl
total_gone f (drawing ∷ ps) h all = absurd (omega (arith, all, is_gone-le ps))
total_gone f (drawn k ∷ ps) h all = absurd (omega (arith, all, is_gone-le ps))
total_gone f (gone ∷ ps) h all = omega (arith, h, total_gone f ps h (omega (arith, all)))

count_loop-counts :
    (fuel begin rs n i : ℕ)
    → n + 1 ≤ begin + rs + fuel
    → count_loop fuel begin rs n i ≡ i + (n + 1 - (begin + rs))
unfolding count_loop
count_loop-counts zero begin rs n i enough = omega (arith, enough)
count_loop-counts (suc fuel) begin rs n i enough = elim (Bool-cases (leb (begin + rs) n)) [
  | inl more ↦
      let inside = leb→le _ _ more in
      rw more (
        omega
          (arith, inside, count_loop-counts fuel (begin + 1) rs n (i + 1) (omega (arith, enough))))
  | inr over ↦ let behind = leb→lt _ _ over in rw over (omega (arith, behind))
]

module _ {A : Type 0} (work : Work A) (thread_n n rs : ℕ) (a : A) (one : 1 ≤ rs) (fits : rs ≤ n)
    (threads : 1 ≤ thread_n) (s : Round A) (reached : Reachable work thread_n n rs a s)
    (over : total is_gone s.threads ≡ thread_n) where
  -- Of an input of `n` bytes and with one thread or more: in every reachable state in which all threads of a
  -- round have returned, the windows of the round's size were worked on once each, and nothing
  -- else; the counter has been drawn from once for each window, and once more by each thread.
  pub tickets_once :
      ((b : ℕ) → total (λ k. one_if k b) s.tried ≡ is_window s.cur_rs s.ip_size b)
      × (s.begin ≡ n - s.cur_rs + 1 + thread_n)
  tickets_once =
      let inv = Reachable-Drawn work thread_n n rs a one fits s reached in
      let all : total is_gone s.threads ≡ length s.threads = omega (arith, over, inv.all) in
      let closed = inv.closed (omega (arith, over, threads)) in
      (
        λ b. ground (
          arith,
          inv.once b,
          closed,
          total_gone (has_drawn s.cur_rs s.ip_size b) s.threads refl all,
        ),
        omega (
          arith,
          inv.draws,
          inv.worked,
          closed,
          inv.fits,
          inv.size,
          over,
          total_gone is_holding s.threads refl all,
          total_gone (has_window s.cur_rs s.ip_size) s.threads refl all,
        ),
      )

  -- Of an input of `n` bytes and with one thread or more: in every reachable state in which all threads of a
  -- round have returned, they have together worked on as many windows as `no_thread` counts for this
  -- size, with fuel for one round a byte.
  pub tickets_as_no_thread : length s.tried ≡ count_loop (n + 1) 0 s.cur_rs n 0
  tickets_as_no_thread =
      let inv = Reachable-Drawn work thread_n n rs a one fits s reached in
      let all : total is_gone s.threads ≡ length s.threads = omega (arith, over, inv.all) in
      let closed = inv.closed (omega (arith, over, threads)) in
      omega (
        arith,
        inv.worked,
        inv.size,
        closed,
        count_loop-counts (n + 1) 0 s.cur_rs n 0 (omega arith),
        total_gone (has_window s.cur_rs s.ip_size) s.threads refl all,
      )

-- How many moves a thread has to make at least, counted so that each move takes one away
abbrev left_of : (rs n : ℕ) → Place → ℕ
left_of rs n drawing = 2
left_of rs n (drawn k) = 1 + 2 * is_window rs n k
left_of rs n gone = 0

abbrev left_moves : {A : Type 0} → Round A → ℕ
left_moves s =
    2 * (s.ip_size + 1 - (s.begin + s.cur_rs)) + total (left_of s.cur_rs s.ip_size) s.threads

data Less {A : Type 0} (s t : Round A) : Type 0 where
  smaller : s.cur_rs < t.cur_rs → Less s t
  nearer : s.cur_rs ≡ t.cur_rs → left_moves s < left_moves t → Less s t

module _ {A : Type 0} (work : Work A) (thread_n : ℕ) where
  module _ (before after : List Place) (s : Round A) where
    abbrev Fewer : Move A → Type 0
    Fewer (moved p t) = Less (record t { threads = before ++ (p ∷ after) }) s
    Fewer joinable = Unit
    Fewer stopped = Unit

    swap :
        (p q : Place)
        → s.threads ≡ before ++ (p ∷ after)
        → total (left_of s.cur_rs s.ip_size) (before ++ (q ∷ after)) + left_of s.cur_rs s.ip_size p
          ≡ total (left_of s.cur_rs s.ip_size) s.threads + left_of s.cur_rs s.ip_size q
    swap p q e = total_swap (left_of s.cur_rs s.ip_size) s.threads before p q after e

    thread_move-Less :
        (p : Place)
        → s.threads ≡ before ++ (p ∷ after)
        → Fewer (thread_move work (length before + 1) p s)
    unfolding thread_move
    thread_move-Less drawing e = nearer refl (ground (arith, swap drawing (drawn s.begin) e))
    thread_move-Less gone e = tt
    thread_move-Less (drawn start) e = elim (Bool-cases (ltb s.ip_size (start + s.cur_rs))) [
      | inl over ↦
          let behind = ltb→lt _ _ over in
          rw over (nearer refl (ground (arith, behind, swap (drawn start) gone e)))
      | inr inside ↦
          rw inside (
            worked (work (length before + 1) start s.cur_rs s.ip_size s.state) e
              (ltb→le _ _ inside))
    ]
      where
        worked :
            (r : Option A)
            → s.threads ≡ before ++ (drawn start ∷ after)
            → start + s.cur_rs ≤ s.ip_size
            → Fewer (elim r [
              | some a ↦ moved drawing (record s { state = a; tried = start ∷ s.tried })
              | none ↦ stopped
            ])
        worked (some a) e inside =
            nearer refl (ground (arith, inside, swap (drawn start) drawing e))
        worked none e inside = tt

  Step-Less : (s t : Round A) → Step work thread_n s t → Less t s
  unfolding start_round
  Step-Less s t (by_thread before p p' after e run) =
      subst (Fewer before after s) run (thread_move-Less before after s p e)
  Step-Less s t (joined over next) = smaller (omega (arith, next))

  ends :
      (a m : ℕ) (s : Round A)
      → s.cur_rs < a
      → left_moves s < m
      → Acc (λ t u. Step work thread_n u t) s
  ends zero m s ha hm = absurd (omega (arith, ha))
  ends a zero s ha hm = absurd (omega (arith, hm))
  ends (suc a) (suc m) s ha hm = Acc.intro s (λ t step. elim (Step-Less s t step) [
    | smaller h ↦ ends a (left_moves t + 1) t (omega (arith, ha, h)) (omega arith)
    | nearer e h ↦ ends (suc a) m t (omega (arith, ha, e)) (omega (arith, hm, h))
  ])

  -- From every state of `thread` no infinite sequence of moves leads on, whatever the order of the
  -- threads and the work for a window are.
  pub tickets_terminate : (s : Round A) → Acc (λ t u. Step work thread_n u t) s
  tickets_terminate s = ends (s.cur_rs + 1) (left_moves s + 1) s (omega arith) (omega arith)
