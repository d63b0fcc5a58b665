-- ===== src/Range/Threads/Names.antt =====
-- The names of the files that `range` makes: those of two purposes, two threads or two rounds differ.
use diy_ddmin.Base.{
  ℕ, zero, suc, ◌+◌, ◌*◌, ◌<◌, ◌≤◌, ◌≡◌, ◌≢◌, refl, sym, ◌∙◌, ap, ne→==, ◌⊎◌, inl, inr, [], ◌∷◌,
  arith, ◌==◌, if◌then◌else◌, drop,
}
use diy_ddmin.Paths.{Bytes, FilePath, codes, decimal}
use diy_ddmin.Paths.Apart.{HeadDigit, digits-HeadDigit, decimal-injective, decimal_part-injective}
use diy_ddmin.Oracle.{dummy_path}
use diy_ddmin.Range.Threads.{thread_n, thread_path, origin_path, fail_path, first_out_file}
use diy_ddmin.Range.Threads.Jobs.{Untouched}

-- The output file of thread `i` when it has found the error `k` times: `out_files[i]`.
abbrev pub out_name : (i k : ℕ) → FilePath
out_name i zero = first_out_file i
out_name i (suc k) = thread_path (i + thread_n * suc k)

abbrev first : Bytes → ℕ
first [] = 0
first (c ∷ s) = c

-- The first character of a name, or the third where `./` is in front of it.
abbrev mark : FilePath → ℕ
mark p = if first p == 46 then 256 + first (drop 2 p) else first p

mark-origin_path : (i : ℕ) → mark (origin_path i) ≡ 111
unfolding origin_path
mark-origin_path i = refl

mark-dummy_path : (i : ℕ) (s : Bytes) → mark (dummy_path i s) ≡ 356
unfolding dummy_path
mark-dummy_path i s = refl

mark-out_name : (i k : ℕ) → (mark (out_name i k) ≡ 116) ⊎ (mark (out_name i k) ≡ 372)
unfolding first_out_file thread_path
mark-out_name i zero = inl refl
mark-out_name i (suc k) = inr refl

mark-digit : (p : FilePath) → HeadDigit p → (48 ≤ mark p) × (mark p < 58)
mark-digit [] h = absurd h
mark-digit (c ∷ s) h = rw (ne→== c 46 (omega (arith, h.0))) h

mark-fail_path : (k : ℕ) → (48 ≤ mark (fail_path k)) × (mark (fail_path k) < 58)
unfolding fail_path decimal
mark-fail_path k = mark-digit (fail_path k) (digits-HeadDigit (suc k) k _ (omega arith))

-- A file that no thread writes, removes or renames.
pub record Foreign (p : FilePath) : Type 0 where
  pub no_origin : (i : ℕ) → origin_path i ≢ p
  pub no_out : (i k : ℕ) → out_name i k ≢ p
  pub untouched : (i : ℕ) → Untouched i p

pub mark-Foreign :
    (p : FilePath) → mark p ≢ 111 → mark p ≢ 116 → mark p ≢ 372 → mark p ≢ 356 → Foreign p
mark-Foreign p o f t d = record {
  no_origin = λ i e. o (sym (ap mark e) ∙ mark-origin_path i);
  no_out = λ i k e. elim (mark-out_name i k) [
    | inl m ↦ f (sym (ap mark e) ∙ m)
    | inr m ↦ t (sym (ap mark e) ∙ m)
  ];
  untouched = λ i. record {
    no_out = λ e. d (sym (ap mark e) ∙ mark-dummy_path i (codes ".stdout"));
    no_err = λ e. d (sym (ap mark e) ∙ mark-dummy_path i (codes ".stderr"));
  };
}

pub fail_path-Foreign : (k : ℕ) → Foreign (fail_path k)
fail_path-Foreign k =
    let (low, high) = mark-fail_path k in
    mark-Foreign (fail_path k) (λ e. omega arith) (λ e. omega arith) (λ e. omega arith)
      (λ e. omega arith)

pub out_name-ne-origin_path : (i k j : ℕ) → out_name i k ≢ origin_path j
out_name-ne-origin_path i k j e = omega (arith, ap mark e, mark-origin_path j, mark-out_name i k)

pub origin_path-Untouched : (i j : ℕ) → Untouched i (origin_path j)
origin_path-Untouched i j = record {
  no_out = λ e. omega (arith, ap mark e, mark-origin_path j, mark-dummy_path i (codes ".stdout"));
  no_err = λ e. omega (arith, ap mark e, mark-origin_path j, mark-dummy_path i (codes ".stderr"));
}

pub out_name-Untouched : (i j k : ℕ) → Untouched i (out_name j k)
out_name-Untouched i j k = record {
  no_out = λ e. omega (arith, ap mark e, mark-out_name j k, mark-dummy_path i (codes ".stdout"));
  no_err = λ e. omega (arith, ap mark e, mark-out_name j k, mark-dummy_path i (codes ".stderr"));
}

pub origin_path-injective : (i j : ℕ) → origin_path i ≡ origin_path j → i ≡ j
unfolding origin_path
origin_path-injective i j e = decimal-injective i j (ap (drop 12) e)

-- A thread uses no name of another thread, nor one twice.
pub out_name-injective :
    (i k j l : ℕ) → i < 4 → j < 4 → out_name i k ≡ out_name j l → (i ≡ j) × (k ≡ l)
unfolding first_out_file thread_path
out_name-injective i zero j zero h g e = (decimal-injective i j (ap (drop 6) e), refl)
out_name-injective i zero j (suc l) h g e = absurd (omega (arith, ap mark e))
out_name-injective i (suc k) j zero h g e = absurd (omega (arith, ap mark e))
out_name-injective i (suc k) j (suc l) h g e =
    let same : i + 4 * suc k ≡ j + 4 * suc l = decimal_part-injective _ _ (ap (drop 8) e) in
    (omega (arith, same), omega (arith, same))
