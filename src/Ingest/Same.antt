-- ===== src/Ingest/Same.antt =====
-- A resumed run does not pay for the model again: where TAG is done, what the model would answer plays
-- no part.
use mouseion.Prelude.{
  ℕ, ◌≡◌, refl, ap, Bool, true, false, Option, none, some, List, ◌++◌, [], sym, ◌∙◌, Option-cases,
  inl, inr,
}
use mouseion.Text.{Text}
use mouseion.Effect.{Result, ok, err, ◌>>=◌, ◌>>◌, Keeps, bind_ok}
use mouseion.Jobs.{tag, JobRow, get_job, bump_attempts, attach, get_progress, is_step_done}
use mouseion.Jobs.Held.{Done, Done-set_state, Done-attach, Done-mark_step_done, Done-bump_attempts}
use mouseion.Papers.{get_or_create_by_sha256, update_paper}
use mouseion.Ingest.{
  Library, IngestFault, Ingest, on_jobs, on_papers, ArxivMetadata, Runtime, Http, TreeIndexer,
  LlmClient, Embedder, ExtractedText, Warning, IngestOutcome,
}
use mouseion.Ingest.Fetch.{Located, step_download}
use mouseion.Ingest.Steps.{step_extract, step_index}
use mouseion.Ingest.Tag.{step_tag}
use mouseion.Ingest.Run.{
  write_metadata, arxiv_fields, duplicate_of, after_tag, after_index, after_extract, with_paper,
  make_paper, after_download, run_steps, or_fail, run_ingest, finish,
}
use mouseion.Ingest.Kept.{kept_step_download, kept_step_extract, kept_step_index}

-- After an action that keeps `P`, what agrees where `P` holds agrees.
bind_same :
    {A B : Type 0} (P : Library → Type 0) (m : Ingest A) (f g : A → Ingest B)
    → Keeps P m
    → ((a : A) (s : Library) → P s → f a s ≡ g a s)
    → (s : Library) → P s
    → (m >>= f) s ≡ (m >>= g) s
bind_same {A = A} {B = B} P m f g km same s h = go (m s) (km s h)
  where
    go :
        (p : Result IngestFault A × Library)
        → P p.1
        → Path
            (Result IngestFault B × Library)
            (elim p.0 as (λ _. Result IngestFault B × Library) [
              | ok a ↦ f a p.1
              | err e ↦ (err e, p.1)
            ])
            (elim p.0 as (λ _. Result IngestFault B × Library) [
              | ok a ↦ g a p.1
              | err e ↦ (err e, p.1)
            ])
    go (ok a, s') h' = same a s' h'
    go (err e, s') h' = refl

module _ (rt : Runtime) (http : Http) (indexer : TreeIndexer) (llm other : LlmClient)
    (embedder : Embedder) (k : Text) where
  abbrev pub Tagged : Library → Type 0
  Tagged s = Done k tag s.jobs

  same_after_tag :
      (paper_id : ℕ) (sha : Text) (warnings : List Warning) (s : Library)
      → after_tag rt http indexer llm embedder k paper_id sha warnings s
        ≡ after_tag rt http indexer other embedder k paper_id sha warnings s
  unfolding after_tag finish
  same_after_tag paper_id sha warnings s = refl

  step_tag-done :
      (l : LlmClient) (paper_id : ℕ) (text : ExtractedText) (s : Library)
      → Tagged s
      → step_tag rt l k paper_id text s ≡ (ok [], s)
  unfolding step_tag
  step_tag-done l paper_id text s h = rw (h, step_tag)

  same_after_index :
      (paper_id : ℕ) (sha : Text) (text : ExtractedText) (warnings : List Warning) (s : Library)
      → Tagged s
      → after_index rt http indexer llm embedder k paper_id sha text warnings s
        ≡ after_index rt http indexer other embedder k paper_id sha text warnings s
  unfolding after_index after_tag finish
  same_after_index paper_id sha text warnings s h =
      let next : LlmClient → List Warning → Ingest IngestOutcome =
        λ l more. after_tag rt http indexer l embedder k paper_id sha (warnings ++ more) in
      bind_ok (step_tag rt llm k paper_id text) (next llm) s s []
        (step_tag-done llm paper_id text s h)
      ∙ sym (
          bind_ok (step_tag rt other k paper_id text) (next other) s s []
            (step_tag-done other paper_id text s h))

  same_after_extract :
      (paper_id : ℕ) (sha : Text) (text : ExtractedText) (s : Library)
      → Tagged s
      → after_extract rt http indexer llm embedder k paper_id sha text s
        ≡ after_extract rt http indexer other embedder k paper_id sha text s
  unfolding after_extract
  same_after_extract paper_id sha text =
      bind_same Tagged (step_index indexer k sha text)
        (after_index rt http indexer llm embedder k paper_id sha text)
        (after_index rt http indexer other embedder k paper_id sha text)
        (kept_step_index k (Done k tag) (Done-set_state k tag) (Done-attach k tag)
          (Done-mark_step_done k tag) indexer sha text)
        (same_after_index paper_id sha text)

  same_with_text :
      (paper_id : ℕ) (sha : Text) (s : Library)
      → Tagged s
      → (step_extract rt k paper_id sha
            >>= after_extract rt http indexer llm embedder k paper_id sha)
          s
        ≡ (step_extract rt k paper_id sha
              >>= after_extract rt http indexer other embedder k paper_id sha)
            s
  same_with_text paper_id sha =
      bind_same Tagged (step_extract rt k paper_id sha)
        (after_extract rt http indexer llm embedder k paper_id sha)
        (after_extract rt http indexer other embedder k paper_id sha)
        (kept_step_extract k (Done k tag) (Done-set_state k tag) (Done-attach k tag)
          (Done-mark_step_done k tag) rt paper_id sha)
        (same_after_extract paper_id sha)

  same_with_paper :
      (l : Located) (made : ℕ × Bool) (s : Library)
      → Tagged s
      → with_paper rt http indexer llm embedder k l made s
        ≡ with_paper rt http indexer other embedder k l made s
  unfolding with_paper attach update_paper
  same_with_paper l (paper_id, created) s h = go l.metadata
    where
      attached : Tagged (on_jobs (attach k (some paper_id) (some l.sha256) (some false)) s).1
      attached = Done-attach k tag (some paper_id) (some l.sha256) (some false) s.jobs h

      go :
          (metadata : Option ArxivMetadata)
          → (on_jobs (attach k (some paper_id) (some l.sha256) (some false))
                >> (write_metadata paper_id metadata
                    >> (step_extract rt k paper_id l.sha256
                        >>= after_extract rt http indexer llm embedder k paper_id l.sha256)))
              s
            ≡ (on_jobs (attach k (some paper_id) (some l.sha256) (some false))
                  >> (write_metadata paper_id metadata
                      >> (step_extract rt k paper_id l.sha256
                          >>= after_extract rt http indexer other embedder k paper_id l.sha256)))
                s
      go none =
          same_with_text paper_id l.sha256
            (on_jobs (attach k (some paper_id) (some l.sha256) (some false)) s).1 attached
      go (some m) =
          same_with_text paper_id l.sha256
            ((on_jobs (attach k (some paper_id) (some l.sha256) (some false))
                >> on_papers (update_paper paper_id (arxiv_fields m)))
              s).1
            attached

  same_after_download :
      (l : Located) (s : Library)
      → Tagged s
      → after_download rt http indexer llm embedder k l s
        ≡ after_download rt http indexer other embedder k l s
  unfolding after_download make_paper
  same_after_download l s h = elim (Option-cases (duplicate_of k l.sha256 s)) [
    | inr (p, e) ↦ rw (e, after_download)
    | inl e ↦
        rw (e, after_download)
          (bind_same Tagged (on_papers (get_or_create_by_sha256 (λ s. s) l.sha256 l.source_url))
            (with_paper rt http indexer llm embedder k l)
            (with_paper rt http indexer other embedder k l) (λ s h. h) (same_with_paper l) s h)
  ]

  same_run_steps :
      (job : JobRow) (s : Library)
      → Tagged s
      → run_steps rt http indexer llm embedder k job s
        ≡ run_steps rt http indexer other embedder k job s
  unfolding run_steps
  same_run_steps job s h =
      let artifacts : List (Text × Text) = (get_progress k s.jobs).artifacts in
      bind_same Tagged (step_download rt http k job (rt.loads job.payload) artifacts)
        (after_download rt http indexer llm embedder k)
        (after_download rt http indexer other embedder k)
        (kept_step_download k (Done k tag) (Done-set_state k tag) (Done-attach k tag)
          (Done-mark_step_done k tag) rt http job (rt.loads job.payload) artifacts)
        same_after_download s h

  same_or_fail :
      (p : Result IngestFault IngestOutcome × Library)
      → or_fail rt http indexer llm embedder k p ≡ or_fail rt http indexer other embedder k p
  same_or_fail (ok o, s) = refl
  same_or_fail (err e, s) = refl

  -- Where TAG is done for a job, its run gives the same result and leaves the same library with any
  -- two models: the tagging request is not made a second time.
  pub run_ingest-tagged :
      (s : Library)
      → is_step_done k tag s.jobs ≡ true
      → run_ingest rt http indexer llm embedder k s ≡ run_ingest rt http indexer other embedder k s
  unfolding run_ingest bump_attempts
  run_ingest-tagged s h =
      let started : Library = (on_jobs (bump_attempts k) s).1 in
      elim (Option-cases (get_job k s.jobs)) [
        | inl e ↦ rw (e, run_ingest)
        | inr (row, e) ↦
            rw (e, run_ingest)
              (ap (or_fail rt http indexer llm embedder k)
                  (same_run_steps row started (Done-bump_attempts k tag s.jobs h))
                ∙ same_or_fail (run_steps rt http indexer other embedder k row started))
      ]
