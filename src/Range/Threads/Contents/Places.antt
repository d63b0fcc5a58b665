-- ===== src/Range/Threads/Contents/Places.antt =====
-- Whether the search of `_range` is over.
use diy_ddmin.Base.{◌≡◌, ◌≢◌, refl, ◌⊎◌, inl, inr}
use diy_ddmin.Range.Threads.{Coordinator, pushing, posting, awaiting, choosing, finished}

pub finished-cases : (co : Coordinator) → (co ≡ finished) ⊎ (co ≢ finished)
finished-cases (pushing b) = inr (λ e. cc)
finished-cases (posting b) = inr (λ e. cc)
finished-cases awaiting = inr (λ e. cc)
finished-cases choosing = inr (λ e. cc)
finished-cases finished = inl refl
