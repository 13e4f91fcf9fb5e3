-- ===== src/Ingest/Complete.antt =====
-- A run that returns and is not a duplicate has done all its steps.
use mouseion.Prelude.{
  ◌⊎◌, ℕ, ◌≡◌, refl, ◌++◌, Bool, true, false, Option, none, some, List, [], ◌∷◌, Option-cases, inl,
  inr, if◌then◌else◌,
}
use mouseion.Text.{Text}
use mouseion.Effect.{Result, ok, err, ◌>>=◌, ◌>>◌}
use mouseion.Jobs.{
  done, Step, download, extract, index, tag, embed, JobRow, get_job, set_state, attach,
  bump_attempts, get_progress, is_step_done,
}
use mouseion.Jobs.Held.{
  Held, Held-set_state, Held-attach, Held-mark_step_done, Held-bump_attempts, Done,
}
use mouseion.Papers.{Papers, PaperFault, get_or_create_by_sha256, update_paper}
use mouseion.Ingest.{
  Library, IngestFault, is_exception, from_papers, relabel, Ingest, on_jobs, on_papers,
  ArxivMetadata, Runtime, Http, TreeIndexer, LlmClient, Embedder, ExtractedText, Warning,
  IngestOutcome,
}
use mouseion.Ingest.Fetch.{Located, step_download}
use mouseion.Ingest.Steps.{step_extract, step_index}
use mouseion.Ingest.Tag.{step_tag}
use mouseion.Ingest.Embed.{step_embed}
use mouseion.Ingest.Run.{
  write_metadata, arxiv_fields, finish_duplicate, duplicate_of, finish, after_tag, after_index,
  after_extract, with_paper, make_paper, after_download, run_steps, fail_with, or_fail, run_ingest,
}
use mouseion.Ingest.Kept.{
  kept_step_download, kept_step_extract, kept_step_index, kept_step_tag, kept_step_embed,
}
use mouseion.Ingest.Outputs.{step_tag-Done, step_embed-Done}
use mouseion.Ingest.Marks.{AfterOk, step_download-Done, step_extract-Done}
use mouseion.Ingest.Optional.{Indexed, step_index-Indexed}
use mouseion.Ingest.Finished.{
  Finished, FinishedIn, Finished-set_state, Finished-attach, Finished-mark, one_more,
}

module _ (rt : Runtime) (http : Http) (indexer : TreeIndexer) (llm : LlmClient)
    (embedder : Embedder) (k : Text) where
  abbrev pub all_steps : List Step
  all_steps = embed ∷ tag ∷ index ∷ extract ∷ download ∷ []

  abbrev pub AllDone : Library → Type 0
  AllDone = FinishedIn k all_steps

  finish-AllDone :
      (paper_id : ℕ) (sha : Text) (warnings : List Warning) (s : Library)
      → AllDone s
      → AfterOk AllDone (finish rt http indexer llm embedder k paper_id sha warnings s)
  unfolding finish set_state
  finish-AllDone paper_id sha warnings s h = Finished-set_state k all_steps done none s.jobs h

  after_tag-AllDone :
      (paper_id : ℕ) (sha : Text) (warnings : List Warning) (s : Library)
      → FinishedIn k (tag ∷ index ∷ extract ∷ download ∷ []) s
      → AfterOk AllDone (after_tag rt http indexer llm embedder k paper_id sha warnings s)
  unfolding after_tag
  after_tag-AllDone paper_id sha warnings =
      let ts : List Step = tag ∷ index ∷ extract ∷ download ∷ [] in
      one_more k AllDone ts embed (step_embed rt embedder k paper_id)
        (λ more. finish rt http indexer llm embedder k paper_id sha (warnings ++ more))
        (kept_step_embed k (Finished k ts) (Finished-set_state k ts) (Finished-attach k ts)
          (Finished-mark k ts) rt embedder paper_id)
        (step_embed-Done k rt embedder paper_id)
        (λ more. finish-AllDone paper_id sha (warnings ++ more))

  after_index-AllDone :
      (paper_id : ℕ) (sha : Text) (text : ExtractedText) (warnings : List Warning) (s : Library)
      → FinishedIn k (index ∷ extract ∷ download ∷ []) s
      → AfterOk AllDone (after_index rt http indexer llm embedder k paper_id sha text warnings s)
  unfolding after_index
  after_index-AllDone paper_id sha text warnings =
      let ts : List Step = index ∷ extract ∷ download ∷ [] in
      one_more k AllDone ts tag (step_tag rt llm k paper_id text)
        (λ more. after_tag rt http indexer llm embedder k paper_id sha (warnings ++ more))
        (kept_step_tag k (Finished k ts) (Finished-set_state k ts) (Finished-attach k ts)
          (Finished-mark k ts) rt llm paper_id text)
        (step_tag-Done k rt llm paper_id text)
        (λ more. after_tag-AllDone paper_id sha (warnings ++ more))

  step_index-Done :
      (sha : Text) (text : ExtractedText) (s : Library)
      → Held k s.jobs
      → AfterOk (λ s'. Done k index s'.jobs) (step_index indexer k sha text s)
  step_index-Done sha text s h =
      go (step_index indexer k sha text s) (step_index-Indexed k indexer sha text s h)
    where
      go :
          (p : Result IngestFault (List Warning) × Library)
          → Indexed k p
          → AfterOk (λ s'. Done k index s'.jobs) p
      go (ok w, s') d = d
      go (err e, s') d = tt

  after_extract-AllDone :
      (paper_id : ℕ) (sha : Text) (text : ExtractedText) (s : Library)
      → FinishedIn k (extract ∷ download ∷ []) s
      → AfterOk AllDone (after_extract rt http indexer llm embedder k paper_id sha text s)
  unfolding after_extract
  after_extract-AllDone paper_id sha text =
      let ts : List Step = extract ∷ download ∷ [] in
      one_more k AllDone ts index (step_index indexer k sha text)
        (after_index rt http indexer llm embedder k paper_id sha text)
        (kept_step_index k (Finished k ts) (Finished-set_state k ts) (Finished-attach k ts)
          (Finished-mark k ts) indexer sha text)
        (step_index-Done sha text) (after_index-AllDone paper_id sha text)

  abbrev pub downloaded : List Step
  downloaded = download ∷ []

  with_text-AllDone :
      (paper_id : ℕ) (sha : Text) (s : Library)
      → FinishedIn k downloaded s
      → AfterOk AllDone (
          (step_extract rt k paper_id sha
              >>= after_extract rt http indexer llm embedder k paper_id sha)
            s)
  with_text-AllDone paper_id sha =
      one_more k AllDone downloaded extract (step_extract rt k paper_id sha)
        (after_extract rt http indexer llm embedder k paper_id sha)
        (kept_step_extract k (Finished k downloaded) (Finished-set_state k downloaded)
          (Finished-attach k downloaded) (Finished-mark k downloaded) rt paper_id sha)
        (step_extract-Done k rt paper_id sha) (after_extract-AllDone paper_id sha)

  with_paper-AllDone :
      (l : Located) (made : ℕ × Bool) (s : Library)
      → FinishedIn k downloaded s
      → AfterOk AllDone (with_paper rt http indexer llm embedder k l made s)
  unfolding with_paper attach update_paper
  with_paper-AllDone l (paper_id, created) s h = go l.metadata
    where
      attached :
          FinishedIn k downloaded
            (on_jobs (attach k (some paper_id) (some l.sha256) (some false)) s).1
      attached = Finished-attach k downloaded (some paper_id) (some l.sha256) (some false) s.jobs h

      go :
          (metadata : Option ArxivMetadata)
          → AfterOk AllDone (
              (on_jobs (attach k (some paper_id) (some l.sha256) (some false))
                  >> (write_metadata paper_id metadata
                      >> (step_extract rt k paper_id l.sha256
                          >>= after_extract rt http indexer llm embedder k paper_id l.sha256)))
                s)
      go none =
          with_text-AllDone paper_id l.sha256
            (on_jobs (attach k (some paper_id) (some l.sha256) (some false)) s).1 attached
      go (some m) =
          with_text-AllDone paper_id l.sha256
            ((on_jobs (attach k (some paper_id) (some l.sha256) (some false))
                >> on_papers (update_paper paper_id (arxiv_fields m)))
              s).1
            attached

  make_paper-AllDone :
      (l : Located) (s : Library)
      → FinishedIn k downloaded s
      → AfterOk AllDone (make_paper rt http indexer llm embedder k l s)
  unfolding make_paper
  make_paper-AllDone l s h =
      go (get_or_create_by_sha256 (λ papers. papers) l.sha256 l.source_url s.papers)
    where
      go :
          (r : Result PaperFault (ℕ × Bool) × Papers)
          → AfterOk AllDone (
              ((λ (x : Library). (relabel from_papers r.0, record x { papers = r.1 }))
                  >>= with_paper rt http indexer llm embedder k l)
                s)
      go (ok made, papers) = with_paper-AllDone l made (record s { papers = papers }) h
      go (err e, papers) = tt

  -- A returned outcome says duplicate, or all five steps of the job are done.
  abbrev pub Complete : Result IngestFault IngestOutcome × Library → Type 0
  Complete (ok o, s) = (o.duplicate ≡ true) ⊎ ((t : Step) → is_step_done k t s.jobs ≡ true)
  Complete (err e, s) = Unit

  AllDone-Complete :
      (p : Result IngestFault IngestOutcome × Library) → AfterOk AllDone p → Complete p
  AllDone-Complete (ok o, s) (held, (e, (t, (i, (x, (d, rest)))))) = inr (λ u.
      elim u as (λ v. is_step_done k v s.jobs ≡ true) [
        | embed ↦ e
        | tag ↦ t
        | index ↦ i
        | extract ↦ x
        | download ↦ d
      ])
  AllDone-Complete (err e, s) h = tt

  after_download-Complete :
      (l : Located) (s : Library)
      → FinishedIn k downloaded s
      → Complete (after_download rt http indexer llm embedder k l s)
  unfolding after_download finish_duplicate attach set_state
  after_download-Complete l s h = elim (Option-cases (duplicate_of k l.sha256 s)) [
    | inr (p, e) ↦ rw (e, after_download) (inl refl)
    | inl e ↦
        rw (e, after_download)
          (AllDone-Complete (make_paper rt http indexer llm embedder k l s)
            (make_paper-AllDone l s h))
  ]

  run_steps-Complete :
      (job : JobRow) (s : Library)
      → Held k s.jobs
      → Complete (run_steps rt http indexer llm embedder k job s)
  unfolding run_steps
  run_steps-Complete job s h =
      let artifacts : List (Text × Text) = (get_progress k s.jobs).artifacts in
      let first : Ingest Located = step_download rt http k job (rt.loads job.payload) artifacts in
      go (first s)
        (kept_step_download k (Held k) (Held-set_state k) (Held-attach k) (Held-mark_step_done k) rt
          http job (rt.loads job.payload) artifacts s h)
        (step_download-Done k rt http job (rt.loads job.payload) artifacts s h)
    where
      go :
          (p : Result IngestFault Located × Library)
          → Held k (p.1).jobs
          → AfterOk (λ s'. Done k download s'.jobs) p
          → Complete (elim p.0 as (λ _. Result IngestFault IngestOutcome × Library) [
            | ok a ↦ after_download rt http indexer llm embedder k a p.1
            | err e ↦ (err e, p.1)
          ])
      go (ok l, s') held marked = after_download-Complete l s' (held, (marked, tt))
      go (err e, s') held marked = tt

  or_fail-Complete :
      (p : Result IngestFault IngestOutcome × Library)
      → Complete p
      → Complete (or_fail rt http indexer llm embedder k p)
  unfolding set_state
  or_fail-Complete (ok o, s) h = h
  or_fail-Complete (err e, s) h =
      elim (is_exception e)
        as (λ b.
          Complete (if b then fail_with rt http indexer llm embedder k e s else (err e, s))) [
            | true ↦ tt
            | false ↦ tt
          ]

  -- Where a run of a job that exists returns, its outcome is `duplicate`, or all five steps of the job
  -- are done.
  pub run_ingest-Complete :
      (s : Library) (row : JobRow)
      → get_job k s.jobs ≡ some row
      → Complete (run_ingest rt http indexer llm embedder k s)
  unfolding run_ingest bump_attempts
  run_ingest-Complete s row found =
      let started : Library = (on_jobs (bump_attempts k) s).1 in
      let held : Held k s.jobs = rw found refl in
      rw (found, run_ingest)
        (or_fail-Complete (run_steps rt http indexer llm embedder k row started)
          (run_steps-Complete row started (Held-bump_attempts k s.jobs held)))
