-- ===== src/Ingest/Finished.antt =====
-- Steps that are done stay done, and one more is done after each step of a run.
use mouseion.Prelude.{ℕ, Bool, Option, List, [], ◌∷◌, All}
use mouseion.Text.{Text}
use mouseion.Effect.{Result, ok, err, ◌>>=◌, Keeps}
use mouseion.Jobs.{JobState, Step, JobRow, set_state, attach, mark_step_done}
use mouseion.Jobs.Held.{
  Held, Held-set_state, Held-attach, Held-mark_step_done, Done, Done-set_state, Done-attach,
  Done-mark_step_done,
}
use mouseion.Ingest.{Library, IngestFault, Ingest}
use mouseion.Ingest.Marks.{AfterOk}

module _ (k : Text) where
  -- The job is there, and the steps are done.
  abbrev pub Finished : List Step → List JobRow → Type 0
  Finished ts js = Held k js × All (λ t. Done k t js) ts

  abbrev pub FinishedIn : List Step → Library → Type 0
  FinishedIn ts s = Finished ts s.jobs

  All-kept :
      (f : List JobRow → List JobRow)
      → ((t : Step) (js : List JobRow) → Done k t js → Done k t (f js))
      → (ts : List Step) (js : List JobRow) → All (λ t. Done k t js) ts
      → All (λ t. Done k t (f js)) ts
  All-kept f keep [] js hs = tt
  All-kept f keep (t ∷ ts) js (h, hs) = (keep t js h, All-kept f keep ts js hs)

  module _ (ts : List Step) where
    pub Finished-set_state :
        (state : JobState) (error : Option Text) (js : List JobRow)
        → Finished ts js
        → Finished ts (set_state k state error js).1
    Finished-set_state state error js (h, hs) = (
      Held-set_state k state error js h,
      All-kept (λ x. (set_state k state error x).1) (λ t. Done-set_state k t state error) ts js hs,
    )

    pub Finished-attach :
        (paper : Option ℕ) (sha : Option Text) (duplicate : Option Bool) (js : List JobRow)
        → Finished ts js
        → Finished ts (attach k paper sha duplicate js).1
    Finished-attach paper sha duplicate js (h, hs) = (
      Held-attach k paper sha duplicate js h,
      All-kept (λ x. (attach k paper sha duplicate x).1) (λ t. Done-attach k t paper sha duplicate)
          ts js hs,
    )

    pub Finished-mark :
        (u : Step) (artifacts : List (Text × Option Text)) (js : List JobRow)
        → Finished ts js
        → Finished ts (mark_step_done k u artifacts js).1
    Finished-mark u artifacts js (h, hs) = (
      Held-mark_step_done k u artifacts js h,
      All-kept (λ x. (mark_step_done k u artifacts x).1) (λ t. Done-mark_step_done k t u artifacts)
          ts js hs,
    )

  -- One more step is done after an action that keeps those that are and marks it.
  pub one_more :
      {A B : Type 0} (Q : Library → Type 0) (ts : List Step) (t : Step) (m : Ingest A)
      (f : A → Ingest B)
      → Keeps (FinishedIn ts) m
      → ((s : Library) → Held k s.jobs → AfterOk (λ s'. Done k t s'.jobs) (m s))
      → ((a : A) (s : Library) → FinishedIn (t ∷ ts) s → AfterOk Q (f a s))
      → (s : Library) → FinishedIn ts s
      → AfterOk Q ((m >>= f) s)
  one_more {A = A} {B = B} Q ts t m f km marks kf s h = go (m s) (km s h) (marks s h.0)
    where
      go :
          (p : Result IngestFault A × Library)
          → FinishedIn ts p.1
          → AfterOk (λ s'. Done k t s'.jobs) p
          → AfterOk Q (elim p.0 as (λ _. Result IngestFault B × Library) [
            | ok a ↦ f a p.1
            | err e ↦ (err e, p.1)
          ])
      go (ok a, s') (held, hs) marked = kf a s' (held, (marked, hs))
      go (err e, s') h' marked = tt
