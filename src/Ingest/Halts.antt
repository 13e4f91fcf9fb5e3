-- ===== src/Ingest/Halts.antt =====
-- Where a step raises, the fault is an exception, or the task was cancelled while the step waited: then
-- the row of the job has the state of that step.
use mouseion.Prelude.{
  ℕ, refl, inl, inr, Bool, true, false, not, Option, none, some, List, Option-cases, Bool-cases,
  if◌then◌else◌, is_empty,
}
use mouseion.Text.{Text, strip}
use mouseion.Effect.{Result, ok, err, pure, ◌>>=◌, ◌>>◌}
use mouseion.Jobs.{
  extract, index, tag, embed, downloading, extracting, indexing, tagging, embedding, JobKind,
  upload, url, JobRow, set_state, attach, mark_step_done, is_step_done,
}
use mouseion.Jobs.Held.{Held}
use mouseion.Taxonomy.Lookup.{list_topics}
use mouseion.Taxonomy.Create.{apply_topic_assignments}
use mouseion.Extraction.{IngestExtraction}
use mouseion.Papers.{PaperRow, set_full_text, update_paper, get_paper}
use mouseion.Tree.{TreeDocument}
use mouseion.Ingest.{
  Bytes, Library, Failure, raised, cancelled, file_missing, on_jobs, on_papers, on_taxonomy,
  Payload, Runtime, Http, TreeIndexer, LlmClient, Embedder, ExtractedText,
}
use mouseion.Ingest.Fetch.{
  Located, same_size, write_file, truthy, file_exists, find_file, digest_or, looks_like_pdf,
  store_pdf, located, locate_upload, stored, stored_as, lift, keep_resolved, resolve_source,
  Resolved, locate_url, locate, fetch, done_download, step_download,
}
use mouseion.Ingest.Steps.{
  extract_text, extracted_of, keep_text, page_count, step_extract, save_tree, keep_tree, step_index,
}
use mouseion.Ingest.Tag.{
  ask_model, request_for, updates_for, mark_tagged, keep_extraction, tag_paper, step_tag,
}
use mouseion.Ingest.Embed.{
  encoded, store_embedding, mark_embedded, store_vector, mark_nothing, source_of, embed_paper,
  step_embed,
}
use mouseion.Ingest.Waiting.{
  Waiting, Halts, Halts-bind, Halts-lift, Halts-on_papers, Halts-on_taxonomy, state_waits,
}

module _ (k : Text) where
  Halts-located : (l : Located) (s : Library) → Halts k (located k l s)
  unfolding located attach mark_step_done
  Halts-located l s = tt

  Halts-upload : (payload : Payload) (s : Library) → Halts k (locate_upload k payload s)
  unfolding locate_upload
  Halts-upload payload s = elim (Option-cases (truthy payload.sha256)) [
    | inl e ↦ rw (e, locate_upload) (inl refl)
    | inr (sha, e) ↦ rw (e, locate_upload) (there sha (not (file_exists sha s)))
  ]
    where
      there :
          (sha : Text) (b : Bool)
          → Halts k (
              if b
              then (err (file_missing sha), s)
              else located k
                  (record { sha256 = sha; source_url = payload.source_url; metadata = none })
                  s)
      there sha true = inl refl
      there sha false = Halts-located _ s

  Halts-store_pdf :
      (rt : Runtime) (content : Bytes) (sha : Option Text) (s : Library)
      → Halts k (store_pdf rt content sha s)
  unfolding store_pdf
  Halts-store_pdf rt content sha s = elim (Bool-cases (looks_like_pdf content)) [
    | inr other ↦ rw (other, store_pdf) (inl refl)
    | inl pdf ↦
        rw (pdf, store_pdf) (at (same_size content (find_file (digest_or rt content sha) s.files)))
  ]
    where
      at :
          (b : Bool)
          → Halts k {A = Text} (
              if b then (ok (digest_or rt content sha), s) else (
                ok (digest_or rt content sha),
                record s { files = write_file (digest_or rt content sha) content s.files },
              ))
      at true = tt
      at false = tt

  Halts-resolved : (rt : Runtime) (r : Resolved) (s : Library) → Halts k (keep_resolved rt k r s)
  Halts-resolved rt r s =
      Halts-bind k (store_pdf rt r.content (some (rt.sha256_bytes r.content))) (stored_as k r) s
        (Halts-store_pdf rt r.content (some (rt.sha256_bytes r.content)) s)
        (λ sha s'. Halts-located (stored r sha) s')

  Halts-url :
      (rt : Runtime) (http : Http) (payload : Payload) (s : Library)
      → Waiting k s
      → Halts k (locate_url rt http k payload s)
  unfolding locate_url
  Halts-url rt http payload s w = elim (Option-cases (truthy payload.url)) [
    | inl e ↦ rw (e, locate_url) (inl refl)
    | inr (address, e) ↦
        rw (e, locate_url)
          (Halts-lift k (resolve_source rt http address) (keep_resolved rt k) s w
            (Halts-resolved rt))
  ]

  Halts-locate :
      (rt : Runtime) (http : Http) (kind : JobKind) (payload : Payload) (s : Library)
      → Waiting k s
      → Halts k (locate rt http k kind payload s)
  Halts-locate rt http upload payload s w = Halts-upload payload s
  Halts-locate rt http url payload s w = Halts-url rt http payload s w

  pub Halts-step_download :
      (rt : Runtime) (http : Http) (job : JobRow) (payload : Payload)
      (artifacts : List (Text × Text)) (s : Library)
      → Held k s.jobs
      → Halts k (step_download rt http k job payload artifacts s)
  unfolding step_download fetch set_state
  Halts-step_download rt http job payload artifacts s h =
      elim (Option-cases (done_download k job artifacts s)) [
        | inr (sha, e) ↦ rw (e, step_download) tt
        | inl e ↦
            rw (e, step_download)
              (Halts-locate rt http job.kind payload (on_jobs (set_state k downloading none) s).1
                (state_waits k downloading s refl h))
      ]

  Halts-kept :
      (rt : Runtime) (paper_id : ℕ) (text : ExtractedText) (s : Library)
      → Halts k (keep_text rt k paper_id (ok text) s)
  unfolding mark_step_done
  Halts-kept rt paper_id text s =
      Halts-bind k (on_papers (set_full_text paper_id text.full_text text.n_pages))
        (λ _. on_jobs (mark_step_done k extract (page_count rt text)) >> pure text) s
        (Halts-on_papers k (set_full_text paper_id text.full_text text.n_pages) s) (λ _ s'. tt)

  Halts-text :
      (rt : Runtime) (paper_id : ℕ) (r : Result Text (List (Option Text))) (s : Library)
      → Halts k (keep_text rt k paper_id (extracted_of r) s)
  Halts-text rt paper_id (err problem) s = inl refl
  Halts-text rt paper_id (ok pages) s = Halts-kept rt paper_id _ s

  pub Halts-step_extract :
      (rt : Runtime) (paper_id : ℕ) (sha : Text) (s : Library)
      → Halts k (step_extract rt k paper_id sha s)
  unfolding step_extract set_state extract_text
  Halts-step_extract rt paper_id sha s =
      Halts-text rt paper_id (rt.open_pages (find_file sha s.files))
        (on_jobs (set_state k extracting none) s).1

  Halts-tree :
      (indexer : TreeIndexer) (r : Result Failure TreeDocument) (s : Library)
      → Waiting k s
      → Halts k (keep_tree indexer k r s)
  unfolding mark_step_done save_tree
  Halts-tree indexer (ok tree) s w = tt
  Halts-tree indexer (err cancelled) s w = inr w
  Halts-tree indexer (err (raised problem)) s w = tt

  pub Halts-step_index :
      (indexer : TreeIndexer) (sha : Text) (text : ExtractedText) (s : Library)
      → Held k s.jobs
      → Halts k (step_index indexer k sha text s)
  unfolding step_index set_state
  Halts-step_index indexer sha text s h = elim (Bool-cases (is_step_done k index s.jobs)) [
    | inl e ↦ rw (e, step_index) tt
    | inr e ↦
        rw (e, step_index)
          (Halts-tree indexer (indexer.build_tree sha text)
            (on_jobs (set_state k indexing none) s).1 (state_waits k indexing s refl h))
  ]

  Halts-extraction :
      (rt : Runtime) (p : PaperRow) (e : IngestExtraction) (s : Library)
      → Halts k (keep_extraction rt k p e s)
  unfolding mark_step_done
  Halts-extraction rt p e s =
      Halts-bind k (on_papers (update_paper p.id (updates_for p e)))
        (λ _. on_taxonomy (apply_topic_assignments p.id e.topics) >>= mark_tagged rt k) s
        (Halts-on_papers k (update_paper p.id (updates_for p e)) s)
        (λ _ s'.
          Halts-bind k (on_taxonomy (apply_topic_assignments p.id e.topics)) (mark_tagged rt k) s'
            (Halts-on_taxonomy k (apply_topic_assignments p.id e.topics) s') (λ applied s''. tt))

  Halts-tag_paper :
      (rt : Runtime) (llm : LlmClient) (paper_id : ℕ) (text : ExtractedText) (o : Option PaperRow)
      (s : Library)
      → Waiting k s
      → Halts k (tag_paper rt llm k paper_id text o s)
  Halts-tag_paper rt llm paper_id text none s w = inl refl
  Halts-tag_paper rt llm paper_id text (some p) s w =
      Halts-lift k (ask_model llm (request_for p text (list_topics s.taxonomy)))
        (keep_extraction rt k p) s w (Halts-extraction rt p)

  pub Halts-step_tag :
      (rt : Runtime) (llm : LlmClient) (paper_id : ℕ) (text : ExtractedText) (s : Library)
      → Held k s.jobs
      → Halts k (step_tag rt llm k paper_id text s)
  unfolding step_tag set_state
  Halts-step_tag rt llm paper_id text s h = elim (Bool-cases (is_step_done k tag s.jobs)) [
    | inl e ↦ rw (e, step_tag) tt
    | inr e ↦
        rw (e, step_tag)
          (Halts-tag_paper rt llm paper_id text (get_paper s.papers paper_id)
            (on_jobs (set_state k tagging none) s).1 (state_waits k tagging s refl h))
  ]

  Halts-store_embedding :
      (embedder : Embedder) (paper_id : ℕ) (vector : List ℕ) (s : Library)
      → Halts k (store_embedding embedder paper_id vector s)
  unfolding store_embedding
  Halts-store_embedding embedder paper_id vector s = elim (Bool-cases embedder.vec_loads) [
    | inl loads ↦ rw (loads, store_embedding) tt
    | inr missing ↦ rw (missing, store_embedding) tt
  ]

  Halts-store_vector :
      (rt : Runtime) (embedder : Embedder) (paper_id : ℕ) (r : Result Text (List ℕ)) (s : Library)
      → Halts k ((lift (encoded r) >>= store_vector rt embedder k paper_id) s)
  unfolding mark_step_done
  Halts-store_vector rt embedder paper_id (err problem) s = inl refl
  Halts-store_vector rt embedder paper_id (ok vector) s =
      Halts-bind k (store_embedding embedder paper_id vector) (mark_embedded rt embedder k) s
        (Halts-store_embedding embedder paper_id vector s) (λ b s'. tt)

  Halts-embed_paper :
      (rt : Runtime) (embedder : Embedder) (paper_id : ℕ) (o : Option PaperRow) (s : Library)
      → Halts k (embed_paper rt embedder k paper_id o s)
  unfolding mark_step_done
  Halts-embed_paper rt embedder paper_id none s = inl refl
  Halts-embed_paper rt embedder paper_id (some p) s = go (is_empty (strip (source_of p s.taxonomy)))
    where
      go :
          (b : Bool)
          → Halts k (
              if b
              then mark_nothing rt k s
              else (lift (encoded (embedder.encode (source_of p s.taxonomy)))
                    >>= store_vector rt embedder k paper_id)
                  s)
      go true = tt
      go false =
          Halts-store_vector rt embedder paper_id (embedder.encode (source_of p s.taxonomy)) s

  pub Halts-step_embed :
      (rt : Runtime) (embedder : Embedder) (paper_id : ℕ) (s : Library)
      → Halts k (step_embed rt embedder k paper_id s)
  unfolding step_embed set_state
  Halts-step_embed rt embedder paper_id s = elim (Bool-cases (is_step_done k embed s.jobs)) [
    | inl e ↦ rw (e, step_embed) tt
    | inr e ↦
        rw (e, step_embed)
          (Halts-embed_paper rt embedder paper_id (get_paper s.papers paper_id)
            (on_jobs (set_state k embedding none) s).1)
  ]
