-- ===== src/Ingest/Outputs.antt =====
-- TAG and EMBED: a step that returns is marked as done.
use mouseion.Prelude.{
  ℕ, arith, if◌then◌else◌, Bool, true, false, Option, none, some, List, Bool-cases, inl, inr,
  is_empty,
}
use mouseion.Text.{Text, strip}
use mouseion.Effect.{◌>>=◌, Keeps}
use mouseion.Jobs.{tagging, embedding, tag, embed, set_state, mark_step_done, is_step_done}
use mouseion.Jobs.Held.{Held-set_state}
use mouseion.Papers.{PaperRow, update_paper, get_paper}
use mouseion.Extraction.{IngestExtraction}
use mouseion.Taxonomy.Lookup.{list_topics}
use mouseion.Taxonomy.Create.{AppliedTopics, apply_topic_assignments}
use mouseion.Ingest.{
  Library, on_jobs, on_papers, on_taxonomy, Runtime, LlmClient, Embedder, ExtractedText,
}
use mouseion.Ingest.Fetch.{lift, stored}
use mouseion.Ingest.Tag.{
  request_for, ask_model, updates_for, tag_artifacts, mark_tagged, keep_extraction, tag_paper,
  step_tag,
}
use mouseion.Ingest.Embed.{
  encoded, embed_artifacts, mark_embedded, store_embedding, store_vector, nothing_artifacts,
  mark_nothing, source_of, embed_paper, step_embed,
}
use mouseion.Ingest.Marks.{AfterOk, HeldIn, DoneIn, after_bind, after_lift, marked-Done}

module _ (k : Text) where
  tagged-Done :
      (rt : Runtime) (applied : AppliedTopics) (s : Library)
      → HeldIn k s
      → AfterOk (DoneIn k tag) (mark_tagged rt k applied s)
  unfolding mark_step_done
  tagged-Done rt applied s h = marked-Done k tag (tag_artifacts rt applied) s.jobs h

  extraction-Done :
      (rt : Runtime) (p : PaperRow) (e : IngestExtraction) (s : Library)
      → HeldIn k s
      → AfterOk (DoneIn k tag) (keep_extraction rt k p e s)
  unfolding update_paper
  extraction-Done rt p e s h =
      after_bind k (DoneIn k tag) (on_taxonomy (apply_topic_assignments p.id e.topics))
        (mark_tagged rt k) (λ s' h'. h') (tagged-Done rt)
        (on_papers (update_paper p.id (updates_for p e)) s).1 h

  tag_paper-Done :
      (rt : Runtime) (llm : LlmClient) (paper_id : ℕ) (text : ExtractedText) (o : Option PaperRow)
      (s : Library)
      → HeldIn k s
      → AfterOk (DoneIn k tag) (tag_paper rt llm k paper_id text o s)
  tag_paper-Done rt llm paper_id text none s h = tt
  tag_paper-Done rt llm paper_id text (some p) s h =
      after_lift k (DoneIn k tag) (ask_model llm (request_for p text (list_topics s.taxonomy)))
        (keep_extraction rt k p) (extraction-Done rt p) s h

  pub step_tag-Done :
      (rt : Runtime) (llm : LlmClient) (paper_id : ℕ) (text : ExtractedText) (s : Library)
      → HeldIn k s
      → AfterOk (DoneIn k tag) (step_tag rt llm k paper_id text s)
  unfolding step_tag set_state
  step_tag-Done rt llm paper_id text s h = elim (Bool-cases (is_step_done k tag s.jobs)) [
    | inl e ↦ rw (e, step_tag) e
    | inr e ↦
        rw (e, step_tag)
          (tag_paper-Done rt llm paper_id text (get_paper s.papers paper_id)
            (on_jobs (set_state k tagging none) s).1 (Held-set_state k tagging none s.jobs h))
  ]

  nothing-Done :
      (rt : Runtime) (s : Library) → HeldIn k s → AfterOk (DoneIn k embed) (mark_nothing rt k s)
  unfolding mark_step_done
  nothing-Done rt s h = marked-Done k embed (nothing_artifacts rt) s.jobs h

  embedded-Done :
      (rt : Runtime) (embedder : Embedder) (stored : Bool) (s : Library)
      → HeldIn k s
      → AfterOk (DoneIn k embed) (mark_embedded rt embedder k stored s)
  unfolding mark_step_done
  embedded-Done rt embedder stored s h =
      marked-Done k embed (embed_artifacts rt embedder stored) s.jobs h

  Held-store_embedding :
      (embedder : Embedder) (paper_id : ℕ) (vector : List ℕ)
      → Keeps (HeldIn k) (store_embedding embedder paper_id vector)
  unfolding store_embedding
  Held-store_embedding embedder paper_id vector s h = ground (arith, h)

  embed_paper-Done :
      (rt : Runtime) (embedder : Embedder) (paper_id : ℕ) (o : Option PaperRow) (s : Library)
      → HeldIn k s
      → AfterOk (DoneIn k embed) (embed_paper rt embedder k paper_id o s)
  embed_paper-Done rt embedder paper_id none s h = tt
  embed_paper-Done rt embedder paper_id (some p) s h =
      go (is_empty (strip (source_of p s.taxonomy)))
    where
      go :
          (b : Bool)
          → AfterOk (DoneIn k embed) (
              if b
              then mark_nothing rt k s
              else (lift (encoded (embedder.encode (source_of p s.taxonomy)))
                    >>= store_vector rt embedder k paper_id)
                  s)
      go true = nothing-Done rt s h
      go false =
          after_lift k (DoneIn k embed) (encoded (embedder.encode (source_of p s.taxonomy)))
            (store_vector rt embedder k paper_id)
            (λ vector.
              after_bind k (DoneIn k embed) (store_embedding embedder paper_id vector)
                (mark_embedded rt embedder k) (Held-store_embedding embedder paper_id vector)
                (embedded-Done rt embedder))
            s h

  pub step_embed-Done :
      (rt : Runtime) (embedder : Embedder) (paper_id : ℕ) (s : Library)
      → HeldIn k s
      → AfterOk (DoneIn k embed) (step_embed rt embedder k paper_id s)
  unfolding step_embed set_state
  step_embed-Done rt embedder paper_id s h = elim (Bool-cases (is_step_done k embed s.jobs)) [
    | inl e ↦ rw (e, step_embed) e
    | inr e ↦
        rw (e, step_embed)
          (embed_paper-Done rt embedder paper_id (get_paper s.papers paper_id)
            (on_jobs (set_state k embedding none) s).1 (Held-set_state k embedding none s.jobs h))
  ]
