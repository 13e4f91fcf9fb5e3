-- ===== src/Ingest/Run.antt =====
-- `_run` of ingest.py: the steps in their order, the short cut for a duplicate, and the handler that
-- leaves an exception in the row of the job and raises it on. CancelledError passes the handler.
-- The `finally` that closes the HTTP client is left out.
use mouseion.Prelude.{ℕ, Bool, true, false, Option, none, some, List, [], ◌++◌, if◌then◌else◌}
use mouseion.Text.{Text}
use mouseion.Effect.{Result, ok, err, pure, raise, gets, ◌>>=◌, ◌>>◌}
use mouseion.Jobs.{
  done, failed, extract, JobRow, get_job, set_state, attach, bump_attempts, get_progress,
  is_step_done,
}
use mouseion.Papers.{
  PaperRow, join_authors, no_fields, PaperFields, find_by_sha256, get_or_create_by_sha256,
  update_paper,
}
use mouseion.Ingest.{
  Library, IngestFault, is_exception, unknown_job, Ingest, on_jobs, on_papers, Runtime,
  ExtractedText, ArxivMetadata, Http, TreeIndexer, LlmClient, Embedder, Warning, IngestOutcome,
}
use mouseion.Ingest.Fetch.{Located, step_download}
use mouseion.Ingest.Steps.{step_extract, step_index}
use mouseion.Ingest.Tag.{step_tag}
use mouseion.Ingest.Embed.{step_embed}

-- the metadata that arXiv has, as columns
unfoldable pub arxiv_fields : ArxivMetadata → PaperFields
arxiv_fields m = record no_fields {
  title = m.title;
  authors = join_authors (some m.authors);
  year = m.year;
  abstract = m.abstract;
  venue = m.venue;
}

abbrev pub write_metadata : ℕ → Option ArxivMetadata → Ingest Unit
write_metadata paper_id none = pure tt
write_metadata paper_id (some m) = on_papers (update_paper paper_id (arxiv_fields m))

abbrev pub outcome_of : ℕ → Text → Bool → List Warning → IngestOutcome
outcome_of paper_id sha duplicate warnings = record {
  paper_id = paper_id;
  sha256 = sha;
  duplicate = duplicate;
  state = done;
  warnings = warnings;
}

-- the short cut
unfoldable pub finish_duplicate : Text → Text → ℕ → Ingest IngestOutcome
finish_duplicate k sha paper_id = do
  on_jobs (attach k (some paper_id) (some sha) (some true))
  on_jobs (set_state k done none)
  pure (outcome_of paper_id sha true [])

-- `existing`, where the short cut is taken
abbrev pub duplicate_of : Text → Text → Library → Option PaperRow
duplicate_of k sha s = if is_step_done k extract s.jobs then none else find_by_sha256 s.papers sha

-- what the run is given
module _ (rt : Runtime) (http : Http) (indexer : TreeIndexer) (llm : LlmClient)
    (embedder : Embedder) (k : Text) where
  unfoldable pub finish : ℕ → Text → List Warning → Ingest IngestOutcome
  finish paper_id sha warnings = do
    on_jobs (set_state k done none)
    pure (outcome_of paper_id sha false warnings)

  unfoldable pub after_tag : ℕ → Text → List Warning → Ingest IngestOutcome
  after_tag paper_id sha warnings = do
    more ← step_embed rt embedder k paper_id
    finish paper_id sha (warnings ++ more)

  unfoldable pub after_index : ℕ → Text → ExtractedText → List Warning → Ingest IngestOutcome
  after_index paper_id sha text warnings = do
    more ← step_tag rt llm k paper_id text
    after_tag paper_id sha (warnings ++ more)

  unfoldable pub after_extract : ℕ → Text → ExtractedText → Ingest IngestOutcome
  after_extract paper_id sha text = do
    warnings ← step_index indexer k sha text
    after_index paper_id sha text warnings

  unfoldable pub with_paper : Located → ℕ × Bool → Ingest IngestOutcome
  with_paper l (paper_id, created) = do
    on_jobs (attach k (some paper_id) (some l.sha256) (some false))
    write_metadata paper_id l.metadata
    text ← step_extract rt k paper_id l.sha256
    after_extract paper_id l.sha256 text

  unfoldable pub make_paper : Located → Ingest IngestOutcome
  make_paper l = do
    made ← on_papers (get_or_create_by_sha256 (λ s. s) l.sha256 l.source_url)
    with_paper l made

  unfoldable pub after_download : Located → Ingest IngestOutcome
  after_download l s = elim (duplicate_of k l.sha256 s) [
    | some existing ↦ finish_duplicate k l.sha256 existing.id s
    | none ↦ make_paper l s
  ]

  -- the body of the `try`
  unfoldable pub run_steps : JobRow → Ingest IngestOutcome
  run_steps job = do
    artifacts ← gets (λ s. (get_progress k s.jobs).artifacts)
    l ← step_download rt http k job (rt.loads job.payload) artifacts
    after_download l

  -- `except Exception as exc:`
  abbrev pub fail_with : IngestFault → Ingest IngestOutcome
  fail_with e = do on_jobs (set_state k failed (some (rt.describe e))); raise e

  abbrev pub or_fail :
      Result IngestFault IngestOutcome × Library → Result IngestFault IngestOutcome × Library
  or_fail (ok o, s) = (ok o, s)
  or_fail (err e, s) = if is_exception e then fail_with e s else (err e, s)

  abbrev pub try_steps : JobRow → Ingest IngestOutcome
  try_steps job s = or_fail (run_steps job s)

  abbrev pub run_found : Option JobRow → Ingest IngestOutcome
  run_found none = raise (unknown_job k)
  run_found (some job) = do on_jobs (bump_attempts k); try_steps job

  -- Nothing else writes to the library during the run.
  unfoldable pub run_ingest : Ingest IngestOutcome
  run_ingest s = run_found (get_job k s.jobs) s
