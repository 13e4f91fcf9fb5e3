-- ===== src/Ingest/Waiting.antt =====
-- A fault that is an exception, or a task that was cancelled while a step waited: then the row of the job
-- has a state in which a step waits.
use mouseion.Prelude.{◌≡◌, refl, ◌⊎◌, inl, inr, Bool, true, false, none, some}
use mouseion.Text.{Text}
use mouseion.Effect.{Result, ok, err, ◌>>=◌}
use mouseion.Jobs.{JobState, downloading, indexing, tagging, JobRow, get_job, set_state}
use mouseion.Jobs.Held.{Held, set_state-row}
use mouseion.Taxonomy.Store.{Db}
use mouseion.Papers.{PaperDb}
use mouseion.Ingest.{
  relabel, from_papers, from_taxonomy, taxonomy_view, Library, IngestFault, is_exception, Ingest,
  on_jobs, on_papers, on_taxonomy,
}
use mouseion.Ingest.Fetch.{lift}

-- the states in which a step waits for a collaborator
abbrev pub waits : JobState → Bool
waits downloading = true
waits indexing = true
waits tagging = true
waits _ = false

module _ (k : Text) where
  abbrev pub Waiting : Library → Type 0
  Waiting s = (row : JobRow) × (get_job k s.jobs ≡ some row) × (waits row.state ≡ true)

  abbrev pub Halts : {A : Type 0} → Result IngestFault A × Library → Type 0
  Halts (ok a, s) = Unit
  Halts (err e, s) = (is_exception e ≡ true) ⊎ Waiting s

  pub Halts-bind :
      {A B : Type 0} (m : Ingest A) (f : A → Ingest B) (s : Library)
      → Halts (m s)
      → ((a : A) (s' : Library) → Halts (f a s'))
      → Halts ((m >>= f) s)
  Halts-bind {A = A} {B = B} m f s h hf = go (m s) h
    where
      go :
          (p : Result IngestFault A × Library)
          → Halts p
          → Halts (elim p.0 as (λ _. Result IngestFault B × Library) [
            | ok a ↦ f a p.1
            | err e ↦ (err e, p.1)
          ])
      go (ok a, s') h' = hf a s'
      go (err e, s') h' = h'

  pub Halts-lift :
      {A B : Type 0} (r : Result IngestFault A) (f : A → Ingest B) (s : Library)
      → Waiting s
      → ((a : A) (s' : Library) → Halts (f a s'))
      → Halts ((lift r >>= f) s)
  Halts-lift (ok a) f s w hf = hf a s
  Halts-lift (err e) f s w hf = inr w

  relabeled :
      {E A : Type 0} (fault : E → IngestFault)
      → ((e : E) → is_exception (fault e) ≡ true)
      → (r : Result E A) (s : Library) → Halts (relabel fault r, s)
  relabeled fault h (ok a) s = tt
  relabeled fault h (err e) s = inl (h e)

  pub Halts-on_taxonomy : {A : Type 0} (m : Db A) (s : Library) → Halts (on_taxonomy m s)
  Halts-on_taxonomy m s = relabeled from_taxonomy (λ e. refl) (m (taxonomy_view s)).0 _

  pub Halts-on_papers : {A : Type 0} (m : PaperDb A) (s : Library) → Halts (on_papers m s)
  Halts-on_papers m s = relabeled from_papers (λ e. refl) (m s.papers).0 _

  pub state_waits :
      (state : JobState) (s : Library)
      → waits state ≡ true
      → Held k s.jobs
      → Waiting (on_jobs (set_state k state none) s).1
  unfolding set_state
  state_waits state s w h =
      let (row, found, is, e) = set_state-row k state none s.jobs h in (row, found, rw is w)
