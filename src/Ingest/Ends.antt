-- ===== src/Ingest/Ends.antt =====
-- How a run ends: the row of the job says whether it succeeded, failed, or was cancelled at a step.
use mouseion.Prelude.{
  ℕ, ◌≡◌, ◌⊎◌, refl, Bool, true, false, Option, none, some, List, Option-cases, inl, inr, ◌++◌,
  if◌then◌else◌,
}
use mouseion.Text.{Text}
use mouseion.Effect.{Result, ok, err, ◌>>=◌, ◌>>◌, Keeps}
use mouseion.Jobs.{
  JobState, done, failed, JobRow, get_job, set_state, bump_attempts, attach, get_progress,
}
use mouseion.Jobs.Held.{
  Held, Held-set_state, Held-attach, Held-mark_step_done, Held-bump_attempts, set_state-row,
}
use mouseion.Ingest.{
  Library, IngestFault, is_exception, Ingest, on_jobs, on_papers, ArxivMetadata, Runtime, Http,
  TreeIndexer, LlmClient, Embedder, ExtractedText, Warning, IngestOutcome,
}
use mouseion.Ingest.Run.{
  write_metadata, arxiv_fields, finish_duplicate, duplicate_of, finish, after_tag, after_index,
  after_extract, with_paper, make_paper, after_download, run_steps, fail_with, or_fail, run_ingest,
}
use mouseion.Ingest.Fetch.{Located, step_download}
use mouseion.Ingest.Steps.{step_extract, step_index}
use mouseion.Ingest.Tag.{step_tag}
use mouseion.Ingest.Embed.{step_embed}
use mouseion.Ingest.Kept.{
  kept_step_download, kept_step_extract, kept_step_index, kept_step_tag, kept_step_embed,
}
use mouseion.Papers.{get_or_create_by_sha256, update_paper}
use mouseion.Ingest.Waiting.{Waiting, Halts, Halts-on_papers}
use mouseion.Ingest.Halts.{
  Halts-step_download, Halts-step_extract, Halts-step_index, Halts-step_tag, Halts-step_embed,
}

module _ (rt : Runtime) (http : Http) (indexer : TreeIndexer) (llm : LlmClient)
    (embedder : Embedder) (k : Text) where
  -- The row of the job has the state and the error.
  abbrev pub RowSays : JobState → Option Text → Library → Type 0
  RowSays state error s =
      (row : JobRow) × (get_job k s.jobs ≡ some row) × (row.state ≡ state) × (row.error ≡ error)

  -- A returned outcome goes with a job that is done; an exception is left in a job that failed; a
  -- cancelled run leaves the state of the step that waited.
  abbrev pub Ended : Result IngestFault IngestOutcome × Library → Type 0
  Ended (ok o, s) = RowSays done none s
  Ended (err e, s) = if is_exception e then RowSays failed (some (rt.describe e)) s else Waiting k s

  -- before the handler
  abbrev pub Reached : Result IngestFault IngestOutcome × Library → Type 0
  Reached (ok o, s) = RowSays done none s
  Reached (err e, s) = Held k s.jobs × ((is_exception e ≡ true) ⊎ Waiting k s)

  abbrev pub Reaches : Ingest IngestOutcome → Type 0
  Reaches m = (s : Library) → Held k s.jobs → Reached (m s)

  abbrev pub HeldIn : Library → Type 0
  HeldIn s = Held k s.jobs

  Reaches-bind :
      {A : Type 0} (m : Ingest A) (f : A → Ingest IngestOutcome)
      → Keeps HeldIn m
      → ((s : Library) → Held k s.jobs → Halts k (m s))
      → ((a : A) → Reaches (f a))
      → Reaches (m >>= f)
  Reaches-bind {A = A} m f km hm rf s h = go (m s) (km s h) (hm s h)
    where
      go :
          (p : Result IngestFault A × Library)
          → Held k (p.1).jobs
          → Halts k p
          → Reached (elim p.0 as (λ _. Result IngestFault IngestOutcome × Library) [
            | ok a ↦ f a p.1
            | err e ↦ (err e, p.1)
          ])
      go (ok a, s') h' w = rf a s' h'
      go (err e, s') h' w = (h', w)

  Reaches-finish :
      (paper_id : ℕ) (sha : Text) (warnings : List Warning)
      → Reaches (finish rt http indexer llm embedder k paper_id sha warnings)
  unfolding finish set_state
  Reaches-finish paper_id sha warnings s h = set_state-row k done none s.jobs h

  Reaches-after_tag :
      (paper_id : ℕ) (sha : Text) (warnings : List Warning)
      → Reaches (after_tag rt http indexer llm embedder k paper_id sha warnings)
  unfolding after_tag
  Reaches-after_tag paper_id sha warnings =
      Reaches-bind (step_embed rt embedder k paper_id)
        (λ more. finish rt http indexer llm embedder k paper_id sha (warnings ++ more))
        (kept_step_embed k (Held k) (Held-set_state k) (Held-attach k) (Held-mark_step_done k) rt
          embedder paper_id)
        (λ s h. Halts-step_embed k rt embedder paper_id s)
        (λ more. Reaches-finish paper_id sha (warnings ++ more))

  Reaches-after_index :
      (paper_id : ℕ) (sha : Text) (text : ExtractedText) (warnings : List Warning)
      → Reaches (after_index rt http indexer llm embedder k paper_id sha text warnings)
  unfolding after_index
  Reaches-after_index paper_id sha text warnings =
      Reaches-bind (step_tag rt llm k paper_id text)
        (λ more. after_tag rt http indexer llm embedder k paper_id sha (warnings ++ more))
        (kept_step_tag k (Held k) (Held-set_state k) (Held-attach k) (Held-mark_step_done k) rt llm
          paper_id text)
        (Halts-step_tag k rt llm paper_id text)
        (λ more. Reaches-after_tag paper_id sha (warnings ++ more))

  Reaches-after_extract :
      (paper_id : ℕ) (sha : Text) (text : ExtractedText)
      → Reaches (after_extract rt http indexer llm embedder k paper_id sha text)
  unfolding after_extract
  Reaches-after_extract paper_id sha text =
      Reaches-bind (step_index indexer k sha text)
        (after_index rt http indexer llm embedder k paper_id sha text)
        (kept_step_index k (Held k) (Held-set_state k) (Held-attach k) (Held-mark_step_done k)
          indexer sha text)
        (Halts-step_index k indexer sha text) (Reaches-after_index paper_id sha text)

  Reaches-with_text :
      (paper_id : ℕ) (sha : Text)
      → Reaches (
          step_extract rt k paper_id sha
          >>= after_extract rt http indexer llm embedder k paper_id sha)
  Reaches-with_text paper_id sha =
      Reaches-bind (step_extract rt k paper_id sha)
        (after_extract rt http indexer llm embedder k paper_id sha)
        (kept_step_extract k (Held k) (Held-set_state k) (Held-attach k) (Held-mark_step_done k) rt
          paper_id sha)
        (λ s h. Halts-step_extract k rt paper_id sha s) (Reaches-after_extract paper_id sha)

  Reaches-with_paper :
      (l : Located) (made : ℕ × Bool) → Reaches (with_paper rt http indexer llm embedder k l made)
  unfolding with_paper attach update_paper
  Reaches-with_paper l (paper_id, created) s h = go l.metadata
    where
      go :
          (metadata : Option ArxivMetadata)
          → Reached (
              (on_jobs (attach k (some paper_id) (some l.sha256) (some false))
                  >> (write_metadata paper_id metadata
                      >> (step_extract rt k paper_id l.sha256
                          >>= after_extract rt http indexer llm embedder k paper_id l.sha256)))
                s)
      go none =
          Reaches-with_text paper_id l.sha256
            (on_jobs (attach k (some paper_id) (some l.sha256) (some false)) s).1
            (Held-attach k (some paper_id) (some l.sha256) (some false) s.jobs h)
      go (some m) =
          Reaches-with_text paper_id l.sha256
            ((on_jobs (attach k (some paper_id) (some l.sha256) (some false))
                >> on_papers (update_paper paper_id (arxiv_fields m)))
              s).1
            (Held-attach k (some paper_id) (some l.sha256) (some false) s.jobs h)

  Reaches-make_paper : (l : Located) → Reaches (make_paper rt http indexer llm embedder k l)
  unfolding make_paper
  Reaches-make_paper l =
      Reaches-bind (on_papers (get_or_create_by_sha256 (λ s. s) l.sha256 l.source_url))
        (with_paper rt http indexer llm embedder k l) (λ s h. h)
        (λ s h. Halts-on_papers k (get_or_create_by_sha256 (λ s. s) l.sha256 l.source_url) s)
        (Reaches-with_paper l)

  Reaches-duplicate : (sha : Text) (paper_id : ℕ) → Reaches (finish_duplicate k sha paper_id)
  unfolding finish_duplicate attach set_state
  Reaches-duplicate sha paper_id s h =
      set_state-row k done none (attach k (some paper_id) (some sha) (some true) s.jobs).1
        (Held-attach k (some paper_id) (some sha) (some true) s.jobs h)

  Reaches-after_download : (l : Located) → Reaches (after_download rt http indexer llm embedder k l)
  unfolding after_download
  Reaches-after_download l s h = elim (Option-cases (duplicate_of k l.sha256 s)) [
    | inl e ↦ rw (e, after_download) (Reaches-make_paper l s h)
    | inr (p, e) ↦ rw (e, after_download) (Reaches-duplicate l.sha256 p.id s h)
  ]

  Reaches-run_steps : (job : JobRow) → Reaches (run_steps rt http indexer llm embedder k job)
  unfolding run_steps
  Reaches-run_steps job s h =
      let artifacts : List (Text × Text) = (get_progress k s.jobs).artifacts in
      Reaches-bind (step_download rt http k job (rt.loads job.payload) artifacts)
        (after_download rt http indexer llm embedder k)
        (kept_step_download k (Held k) (Held-set_state k) (Held-attach k) (Held-mark_step_done k) rt
          http job (rt.loads job.payload) artifacts)
        (Halts-step_download k rt http job (rt.loads job.payload) artifacts) Reaches-after_download
        s h

  or_fail-Ended :
      (p : Result IngestFault IngestOutcome × Library)
      → Reached p
      → Ended (or_fail rt http indexer llm embedder k p)
  unfolding set_state
  or_fail-Ended (ok o, s) h = h
  or_fail-Ended (err e, s) h = go (is_exception e) refl
    where
      go :
          (b : Bool)
          → is_exception e ≡ b
          → Ended (if b then fail_with rt http indexer llm embedder k e s else (err e, s))
      go true is = rw is (set_state-row k failed (some (rt.describe e)) s.jobs h.0)
      go false not = rw not (elim h.1 [ inl is ↦ cc (is, not) | inr w ↦ w ])

  -- A run of a job that exists ends in one of three ways, whatever the collaborators do: it returns an
  -- outcome, and the row of the job says `done` and no error; it raises an exception, and the row says
  -- `failed` and has the line for the exception; or it is cancelled while it waits for a collaborator,
  -- raises CancelledError, and leaves the row at `downloading`, `indexing` or `tagging`.
  pub run_ingest-Ended :
      (s : Library) (row : JobRow)
      → get_job k s.jobs ≡ some row
      → Ended (run_ingest rt http indexer llm embedder k s)
  unfolding run_ingest bump_attempts
  run_ingest-Ended s row found =
      let started : Library = (on_jobs (bump_attempts k) s).1 in
      let held : Held k s.jobs = rw found refl in
      rw (found, run_ingest)
        (or_fail-Ended (run_steps rt http indexer llm embedder k row started)
          (Reaches-run_steps row started (Held-bump_attempts k s.jobs held)))
