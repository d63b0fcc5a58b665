-- ===== src/Oracle/Search/Lines.antt =====
-- The search line by line, against the search in the whole text.
use diy_ddmin.Base.{
  ℕ, zero, suc, ◌≤◌, ◌<◌, ◌≡◌, ◌≢◌, refl, sym, ap, subst, ◌⊎◌, inl, inr, true, [], ◌∷◌, ◌++◌, arith,
  ◌==◌, if◌then◌else◌, Bool-cases, length, length-append, ◌↔◌, ==→eq,
}
use diy_ddmin.Paths.{Bytes}
use diy_ddmin.Oracle.Search.{newline, fgets_line, fgets_left, c_string, strstr, scan_lines, prints}
use diy_ddmin.Oracle.Search.Infix.{
  IsInfix, IsInfix-cons, IsInfix-append, IsInfix-prepend, strstr-IsInfix, IsInfix-strstr,
}

-- The byte `b` does not stand in the text.
abbrev pub Lacks : ℕ → Bytes → Type 0
Lacks b [] = Unit
Lacks b (c ∷ s) = (c ≢ b) × Lacks b s

-- The current line ends within `k` bytes, its newline included, and the later ones within 511.
abbrev pub LinesFit : ℕ → Bytes → Type 0
LinesFit k [] = Unit
LinesFit zero (c ∷ s) = ⊥
LinesFit (suc k) (c ∷ s) = if c == newline then LinesFit 511 s else LinesFit k s

line-append-left : (n : ℕ) (s : Bytes) → fgets_line n s ++ fgets_left n s ≡ s
unfolding fgets_line fgets_left
line-append-left zero s = refl
line-append-left (suc n) [] = refl
line-append-left (suc n) (c ∷ s) = elim (Bool-cases (c == newline)) [
  | inl e ↦ rw e
  | inr e ↦ rw e (ap (λ r. c ∷ r) (line-append-left n s))
]

c_string-prefix : (s : Bytes) → (t : Bytes) × (s ≡ c_string s ++ t)
unfolding c_string
c_string-prefix [] = ([], refl)
c_string-prefix (c ∷ s) = elim (Bool-cases (c == 0)) [
  | inl e ↦ (c ∷ s, rw e)
  | inr e ↦ let (t, h) = c_string-prefix s in (t, rw e (ap (λ r. c ∷ r) h))
]

c_string-same : (s : Bytes) → Lacks 0 s → c_string s ≡ s
unfolding c_string
c_string-same [] h = refl
c_string-same (c ∷ s) h = ground (arith, c_string-same s h.1)

scan_lines-IsInfix : (fuel : ℕ) (m s : Bytes) → scan_lines fuel m s ≡ true → IsInfix m s
unfolding scan_lines
scan_lines-IsInfix fuel m [] h = cc
scan_lines-IsInfix zero m (c ∷ s) h = cc
scan_lines-IsInfix (suc fuel) m (c ∷ s) h =
    let line = fgets_line 511 (c ∷ s) in
    let left = fgets_left 511 (c ∷ s) in
    let (t, e) = c_string-prefix line in
    let whole : line ++ left ≡ c ∷ s = line-append-left 511 (c ∷ s) in
    elim (Bool-cases (strstr (c_string line) m)) [
      | inl here ↦ subst (IsInfix m) whole (
          IsInfix-append m line left (
            subst (IsInfix m) (sym e)
              (IsInfix-append m (c_string line) t (strstr-IsInfix (c_string line) m here))))
      | inr later ↦
          subst (IsInfix m) whole
            (IsInfix-prepend m left line (scan_lines-IsInfix fuel m left (rw later at h)))
    ]

-- Whatever the lines, a message that is reported stands in the text.
pub prints-IsInfix : (m s : Bytes) → prints m s ≡ true → IsInfix m s
unfolding prints
prints-IsInfix m s h = scan_lines-IsInfix (length s) m s h

fgets_line-append :
    (k : ℕ) (m r : Bytes)
    → Lacks newline m
    → LinesFit k (m ++ r)
    → (t : Bytes) × (fgets_line k (m ++ r) ≡ m ++ t)
unfolding fgets_line
fgets_line-append k [] r lacks fit = (fgets_line k r, refl)
fgets_line-append zero (c ∷ m) r lacks fit = elim fit [ ]
fgets_line-append (suc k) (c ∷ m) r lacks fit = elim (Bool-cases (c == newline)) [
  | inl e ↦ absurd (lacks.0 (==→eq c newline e))
  | inr e ↦
      let (t, h) = fgets_line-append k m r lacks.1 (rw e at fit) in (t, rw e (ap (λ q. c ∷ q) h))
]

-- A message without a newline stands in the first line or behind it.
IsInfix-line :
    (k : ℕ) (m a r : Bytes)
    → Lacks newline m
    → LinesFit k (a ++ (m ++ r))
    → IsInfix m (fgets_line k (a ++ (m ++ r))) ⊎ IsInfix m (fgets_left k (a ++ (m ++ r)))
unfolding fgets_line fgets_left
IsInfix-line k m [] r lacks fit =
    let (t, e) = fgets_line-append k m r lacks fit in
    inl (record { before = []; behind = t; split = e })
IsInfix-line zero m (c ∷ a) r lacks fit = elim fit [ ]
IsInfix-line (suc k) m (c ∷ a) r lacks fit = elim (Bool-cases (c == newline)) [
  | inl e ↦ rw e (inr (record { before = a; behind = r; split = refl }))
  | inr e ↦ rw e (elim (IsInfix-line k m a r lacks (rw e at fit)) [
    | inl i ↦ inl (IsInfix-cons c m _ i)
    | inr i ↦ inr i
  ])
]

LinesFit-left : (k : ℕ) (s : Bytes) → LinesFit k s → LinesFit 511 (fgets_left k s)
unfolding fgets_left
LinesFit-left zero [] fit = tt
LinesFit-left zero (c ∷ s) fit = elim fit [ ]
LinesFit-left (suc k) [] fit = tt
LinesFit-left (suc k) (c ∷ s) fit = elim (Bool-cases (c == newline)) [
  | inl e ↦ rw e (rw e at fit)
  | inr e ↦ rw e (LinesFit-left k s (rw e at fit))
]

Lacks-line : (b k : ℕ) (s : Bytes) → Lacks b s → Lacks b (fgets_line k s)
unfolding fgets_line
Lacks-line b zero s h = tt
Lacks-line b (suc k) [] h = tt
Lacks-line b (suc k) (c ∷ s) h = elim (Bool-cases (c == newline)) [
  | inl e ↦ rw e (h.0, tt)
  | inr e ↦ rw e (h.0, Lacks-line b k s h.1)
]

Lacks-left : (b k : ℕ) (s : Bytes) → Lacks b s → Lacks b (fgets_left k s)
unfolding fgets_left
Lacks-left b zero s h = h
Lacks-left b (suc k) [] h = tt
Lacks-left b (suc k) (c ∷ s) h = elim (Bool-cases (c == newline)) [
  | inl e ↦ rw e h.1
  | inr e ↦ rw e (Lacks-left b k s h.1)
]

length-left : (k : ℕ) (s : Bytes) → length (fgets_left k s) ≤ length s
unfolding fgets_left
length-left zero s = omega arith
length-left (suc k) [] = omega arith
length-left (suc k) (c ∷ s) = ground (arith, length-left k s)

either :
    (k : ℕ) (m s : Bytes)
    → IsInfix m s
    → Lacks newline m
    → LinesFit k s
    → IsInfix m (fgets_line k s) ⊎ IsInfix m (fgets_left k s)
either k m s i lacks fit =
    subst (λ t. IsInfix m (fgets_line k t) ⊎ IsInfix m (fgets_left k t)) (sym i.split)
      (IsInfix-line k m i.before i.behind lacks (subst (LinesFit k) i.split fit))

-- A round reads a byte at least.
shorter_left : (c : ℕ) (s : Bytes) → length (fgets_left 511 (c ∷ s)) ≤ length s
unfolding fgets_left
shorter_left c s = ground (arith, length-left 510 s)

nonempty_infix : (m : Bytes) → m ≢ [] → IsInfix m [] → ⊥
nonempty_infix m ne i = absurd (
    omega (
      arith,
      nonempty-length m ne,
      ap length i.split,
      length-append i.before (m ++ i.behind),
      length-append m i.behind,
    ))
  where
    nonempty-length : (l : Bytes) → l ≢ [] → 0 < length l
    nonempty-length [] h = absurd (h refl)
    nonempty-length (c ∷ l) h = omega arith

scan_lines_complete :
    (fuel : ℕ) (m s : Bytes)
    → length s ≤ fuel
    → m ≢ []
    → Lacks newline m
    → Lacks 0 s
    → LinesFit 511 s
    → IsInfix m s
    → scan_lines fuel m s ≡ true
unfolding scan_lines
scan_lines_complete fuel m [] enough ne lacks text fit i = absurd (nonempty_infix m ne i)
scan_lines_complete zero m (c ∷ s) enough ne lacks text fit i = absurd (omega arith)
scan_lines_complete (suc fuel) m (c ∷ s) enough ne lacks text fit i =
    let line = fgets_line 511 (c ∷ s) in
    let left = fgets_left 511 (c ∷ s) in
    let plain : c_string line ≡ line = c_string-same line (Lacks-line 0 511 (c ∷ s) text) in
    elim (either 511 m (c ∷ s) i lacks fit) [
      | inl here ↦ rw (plain, IsInfix-strstr line m here)
      | inr later ↦ ground (
        arith,
        scan_lines_complete fuel m left (omega (arith, shorter_left c s)) ne lacks
            (Lacks-left 0 511 (c ∷ s) text) (LinesFit-left 511 (c ∷ s) fit) later,
      )
    ]

-- A message of one line is reported exactly if it stands in the text, where no line has more than
-- 511 bytes, its newline included, and the text has no NUL.
pub prints_complete :
    (m s : Bytes)
    → m ≢ []
    → Lacks newline m
    → Lacks 0 s
    → LinesFit 511 s
    → (prints m s ≡ true) ↔ IsInfix m s
unfolding prints
prints_complete m s ne lacks text fit =
    (prints-IsInfix m s, scan_lines_complete (length s) m s (omega arith) ne lacks text fit)
