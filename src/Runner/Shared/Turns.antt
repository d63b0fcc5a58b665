-- ===== src/Runner/Shared/Turns.antt =====
-- `runner` in several threads that take turns, as the moves of the other modules do.
use diy_ddmin.Base.{
  ℕ, ◌≡◌, ◌≢◌, refl, sym, ap, subst, ◌∙◌, ◌⊎◌, inl, inr, Bool, true, ◌==◌, Bool-cases, ==→eq, ==→ne,
}
use diy_ddmin.Runner.Shared.{
  Child, running, ended, Place, outside, forked, waits_for, Pool, replace, fork_child, call_waitpid,
  return_waitpid, kill, kill_c_pid, end_child, Step, forks, calls, returns, ends, rings, Leads,
  here, on, Alone, idle_pool,
}
use diy_ddmin.Runner.Shared.Alarms.{replace-same, replace-other}

-- What a thread in `runner` has: a child that `c_pid` names, and an alarm while that goes on.
abbrev Owns : Pool → Place → Type 0
Owns s outside = Unit
Owns s (forked own) = (s.c_pid ≡ own) × ((s.children own ≡ ended) ⊎ (s.children own ≡ running))
Owns s (waits_for own target) =
    (s.c_pid ≡ own)
    × (target ≡ own)
    × ((s.children own ≡ ended) ⊎ ((s.children own ≡ running) × (s.alarmed ≡ true)))

-- All threads but `turn` are outside.
record Single (s : Pool) : Type 0 where
  turn : ℕ
  others : (j : ℕ) → turn ≢ j → s.places j ≡ outside
  owns : Owns s (s.places turn)

-- The thread that is in `runner` is the one whose turn it is.
on_turn : (s : Pool) (one : Single s) (j : ℕ) → s.places j ≢ outside → one.turn ≡ j
on_turn s one j inside = elim (Bool-cases (one.turn == j)) [
  | inl e ↦ ==→eq one.turn j e
  | inr e ↦ absurd (inside (one.others j (==→ne one.turn j e)))
]

owned_at : (s : Pool) (one : Single s) (j : ℕ) (p : Place) → s.places j ≡ p → p ≢ outside → Owns s p
owned_at s one j p at_j inside =
    subst (Owns s) (ap s.places (on_turn s one j (λ e. inside (sym at_j ∙ e))) ∙ at_j) one.owns

others_at :
    (s : Pool) (one : Single s) (j : ℕ) (p : Place)
    → s.places j ≡ p
    → p ≢ outside
    → (m : ℕ) → j ≢ m
    → s.places m ≡ outside
others_at s one j p at_j inside m ne =
    one.others m (λ e. ne (sym (on_turn s one j (λ o. inside (sym at_j ∙ o))) ∙ e))

ended_child : (k own : ℕ) (f : ℕ → Child) → f own ≡ ended → replace k ended f own ≡ ended
ended_child k own f e = elim (Bool-cases (k == own)) [ inl h ↦ rw h refl | inr h ↦ rw h e ]

ended_or :
    (k own : ℕ) (f : ℕ → Child) → (replace k ended f own ≡ ended) ⊎ (replace k ended f own ≡ f own)
ended_or k own f = elim (Bool-cases (k == own)) [
  | inl h ↦ inl (rw h refl)
  | inr h ↦ inr (rw h refl)
]

Owns-ends : (k : ℕ) (s : Pool) (p : Place) → Owns s p → Owns (end_child k s) p
unfolding end_child
Owns-ends k s outside o = tt
Owns-ends k s (forked own) o = (
  o.0,
  elim o.1 [
    | inl e ↦ inl (ended_child k own s.children e)
    | inr r ↦ elim (ended_or k own s.children) [ inl e ↦ inl e | inr same ↦ inr (same ∙ r) ]
  ],
)
Owns-ends k s (waits_for own target) o = (
  o.0,
  o.1,
  elim o.2 [
    | inl e ↦ inl (ended_child k own s.children e)
    | inr r ↦ elim (ended_or k own s.children) [ inl e ↦ inl e | inr same ↦ inr (same ∙ r.0, r.1) ]
  ],
)

-- The alarm ends the child that `c_pid` names.
kills_own :
    (s : Pool) (own : ℕ)
    → s.c_pid ≡ own
    → (s.children own ≡ ended) ⊎ (s.children own ≡ running)
    → (kill_c_pid s).children own ≡ ended
unfolding kill_c_pid
kills_own s own e alive =
    subst (λ k. replace s.c_pid (kill (s.children s.c_pid)) s.children k ≡ ended) e
      (replace-same s.c_pid (kill (s.children s.c_pid)) s.children
        ∙ ap kill (ap s.children e)
        ∙ killed alive)
  where
    killed : {c : Child} → (c ≡ ended) ⊎ (c ≡ running) → kill c ≡ ended
    killed (inl h) = ap kill h
    killed (inr h) = ap kill h

Owns-rings : (s : Pool) (p : Place) → Owns s p → Owns (kill_c_pid s) p
unfolding kill_c_pid
Owns-rings s outside o = tt
Owns-rings s (forked own) o = (o.0, inl (kills_own s own o.0 o.1))
Owns-rings s (waits_for own target) o =
    (o.0, o.1, inl (kills_own s own o.0 (elim o.2 [ inl e ↦ inl e | inr r ↦ inr r.0 ])))

Step-Single : (hangs : ℕ → Bool) (s t : Pool) → Step hangs Alone s t → Single s → Single t
unfolding fork_child call_waitpid return_waitpid kill_c_pid end_child
Step-Single hangs s t (forks j at_j alone) one = record {
  turn = j;
  others = λ m ne. replace-other j m (forked s.next_pid) s.places ne ∙ alone m;
  owns =
      subst (Owns (fork_child j s)) (sym (replace-same j (forked s.next_pid) s.places))
        (refl, inr (replace-same s.next_pid running s.children));
}
Step-Single hangs s t (calls j own at_j) one =
    let o = owned_at s one j (forked own) at_j (λ e. cc) in
    record {
      turn = j;
      others = λ m ne.
          replace-other j m (waits_for own s.c_pid) s.places ne
          ∙ others_at s one j (forked own) at_j (λ e. cc) m ne;
      owns =
          subst (Owns (call_waitpid j own s))
            (sym (replace-same j (waits_for own s.c_pid) s.places))
            (o.0, o.0, elim o.1 [ inl e ↦ inl e | inr r ↦ inr (r, refl) ]);
    }
Step-Single hangs s t (returns j own target at_j over) one = record {
  turn = j;
  others = λ m ne.
      replace-other j m outside s.places ne
      ∙ others_at s one j (waits_for own target) at_j (λ e. cc) m ne;
  owns = subst (Owns (return_waitpid j target s)) (sym (replace-same j outside s.places)) tt;
}
Step-Single hangs s t (ends k runs by_itself) one = record {
  turn = one.turn;
  others = one.others;
  owns = Owns-ends k s (s.places one.turn) one.owns;
}
Step-Single hangs s t (rings set) one = record {
  turn = one.turn;
  others = one.others;
  owns = Owns-rings s (s.places one.turn) one.owns;
}

Leads-Single : (hangs : ℕ → Bool) (s t : Pool) → Single s → Leads hangs Alone s t → Single t
Leads-Single hangs s t one here = one
Leads-Single hangs s t one (on {t = u} leads step) =
    Step-Single hangs u t step (Leads-Single hangs s u one leads)

-- Where a thread calls `runner` only while no other thread is in it: in every state that moves lead to, a
-- thread in `waitpid` waits for the child that it has made itself, and that child has ended, or the
-- alarm is set and its handler kills that child.
pub turns_own_child :
    (hangs : ℕ → Bool) (s : Pool) (i own target : ℕ)
    → Leads hangs Alone idle_pool s
    → s.places i ≡ waits_for own target
    → (target ≡ own)
      × ((s.children own ≡ ended)
          ⊎ ((s.children own ≡ running)
              × (s.alarmed ≡ true)
              × ((kill_c_pid s).children own ≡ ended)))
turns_own_child hangs s i own target leads at_i =
    let one =
      Leads-Single hangs idle_pool s (record { turn = 0; others = λ j ne. refl; owns = tt })
        leads in
    let o = owned_at s one i (waits_for own target) at_i (λ e. cc) in
    (o.1, elim o.2 [ inl e ↦ inl e | inr r ↦ inr (r.0, r.1, kills_own s own o.0 (inr r.0)) ])
