-- ===== src/Ingest/Kept.antt =====
-- What is true of the rows of the jobs, and stays true when a state is set, a column is attached or a
-- step is marked, stays true through every step of a run.
use mouseion.Prelude.{
  ℕ, ◌≡◌, refl, not, arith, if◌then◌else◌, Bool, true, false, Option, none, some, List, [], ◌∷◌,
  Option-cases, Bool-cases, inl, inr, is_some, is_empty,
}
use mouseion.Text.{Text, codes, strip}
use mouseion.Effect.{Result, ok, err, raise, pure, ◌>>=◌, Keeps, Keeps-bind}
use mouseion.Jobs.{
  JobState, downloading, extracting, indexing, tagging, embedding, Step, download, extract, index,
  tag, embed, JobKind, upload, url, JobRow, set_state, attach, mark_step_done, is_step_done,
}
use mouseion.Papers.{PaperRow, set_full_text, find_paper, update_paper, get_paper}
use mouseion.Tree.{TreeDocument}
use mouseion.Extraction.{IngestExtraction}
use mouseion.Taxonomy.Lookup.{list_topics}
use mouseion.Taxonomy.Create.{AppliedTopics, apply_topic_assignments}
use mouseion.Ingest.{
  Bytes, Library, Failure, raised, cancelled, IngestFault, file_missing, Ingest, on_jobs, on_papers,
  on_taxonomy, Payload, Runtime, Http, TreeIndexer, LlmClient, Embedder, ExtractedText,
}
use mouseion.Ingest.Fetch.{
  Resolved, Located, location, store_pdf, located, locate_upload, locate_url, locate, fetch,
  step_download, lift, truthy, file_exists, find_file, stored, stored_as, keep_resolved,
  resolve_source, done_download,
}
use mouseion.Ingest.Steps.{
  step_extract, page_count, keep_text, extract_text, tree_artifacts, tree_path, keep_tree,
  save_tree, step_index, build_index,
}
use mouseion.Ingest.Tag.{
  request_for, ask_model, updates_for, tag_artifacts, mark_tagged, keep_extraction, tag_paper,
  step_tag, run_tag,
}
use mouseion.Ingest.Embed.{
  encoded, embed_artifacts, mark_embedded, store_embedding, store_vector, nothing_artifacts,
  mark_nothing, source_of, embed_paper, run_embed, step_embed,
}

module _ (k : Text) (Q : List JobRow → Type 0)
    (keeps_state : (state : JobState) (error : Option Text) (js : List JobRow)
      → Q js
      → Q (set_state k state error js).1)
    (keeps_attach : (paper : Option ℕ) (sha : Option Text) (duplicate : Option Bool)
        (js : List JobRow)
      → Q js
      → Q (attach k paper sha duplicate js).1)
    (keeps_mark : (t : Step) (artifacts : List (Text × Option Text)) (js : List JobRow)
      → Q js
      → Q (mark_step_done k t artifacts js).1) where
  abbrev pub OfJobs : Library → Type 0
  OfJobs s = Q s.jobs

  kept_if :
      {A : Type 0} (b : Bool) (m n : Ingest A) (s : Library)
      → (b ≡ true → OfJobs (m s).1)
      → (b ≡ false → OfJobs (n s).1)
      → OfJobs (if b then m s else n s).1
  kept_if true m n s hm hn = hm refl
  kept_if false m n s hm hn = hn refl

  kept_lift :
      {A B : Type 0} (r : Result IngestFault A) (f : A → Ingest B)
      → ((a : A) → Keeps OfJobs (f a))
      → Keeps OfJobs (lift r >>= f)
  kept_lift (ok a) f kf s h = kf a s h
  kept_lift (err e) f kf s h = h

  kept_located : (l : Located) → Keeps OfJobs (located k l)
  unfolding located attach mark_step_done
  kept_located l s h =
      keeps_mark download (location l) (attach k none (some l.sha256) none s.jobs).1
        (keeps_attach none (some l.sha256) none s.jobs h)

  kept_upload : (payload : Payload) → Keeps OfJobs (locate_upload k payload)
  unfolding locate_upload
  kept_upload payload s h = elim (Option-cases (truthy payload.sha256)) [
    | inl e ↦ rw (e, locate_upload) h
    | inr (sha, e) ↦
        let l : Located = record {
          sha256 = sha;
          source_url = payload.source_url;
          metadata = none;
        } in
        rw (e, locate_upload)
          (kept_if (not (file_exists sha s)) (raise (file_missing sha)) (located k l) s (λ _. h)
            (λ _. kept_located l s h))
  ]

  kept_store_pdf :
      (rt : Runtime) (content : Bytes) (sha : Option Text) → Keeps OfJobs (store_pdf rt content sha)
  unfolding store_pdf
  kept_store_pdf rt content sha s h = ground (arith, h)

  kept_resolved : (rt : Runtime) (r : Resolved) → Keeps OfJobs (keep_resolved rt k r)
  kept_resolved rt r s h =
      Keeps-bind OfJobs (store_pdf rt r.content (some (rt.sha256_bytes r.content))) (stored_as k r)
        (kept_store_pdf rt r.content (some (rt.sha256_bytes r.content)))
        (λ sha. kept_located (stored r sha)) s h

  kept_url :
      (rt : Runtime) (http : Http) (payload : Payload) → Keeps OfJobs (locate_url rt http k payload)
  unfolding locate_url
  kept_url rt http payload s h = elim (Option-cases (truthy payload.url)) [
    | inl e ↦ rw (e, locate_url) h
    | inr (address, e) ↦
        rw (e, locate_url)
          (kept_lift (resolve_source rt http address) (keep_resolved rt k) (kept_resolved rt) s h)
  ]

  kept_locate :
      (rt : Runtime) (http : Http) (kind : JobKind) (payload : Payload)
      → Keeps OfJobs (locate rt http k kind payload)
  kept_locate rt http upload payload = kept_upload payload
  kept_locate rt http url payload = kept_url rt http payload

  pub kept_step_download :
      (rt : Runtime) (http : Http) (job : JobRow) (payload : Payload)
      (artifacts : List (Text × Text))
      → Keeps OfJobs (step_download rt http k job payload artifacts)
  unfolding step_download fetch set_state
  kept_step_download rt http job payload artifacts s h =
      elim (Option-cases (done_download k job artifacts s)) [
        | inr (sha, e) ↦ rw (e, step_download) h
        | inl e ↦
            rw (e, step_download)
              (kept_locate rt http job.kind payload (on_jobs (set_state k downloading none) s).1
                (keeps_state downloading none s.jobs h))
      ]

  kept_text :
      (rt : Runtime) (paper_id : ℕ) (r : Result IngestFault ExtractedText)
      → Keeps OfJobs (keep_text rt k paper_id r)
  unfolding mark_step_done set_full_text
  kept_text rt paper_id (err e) s h = h
  kept_text rt paper_id (ok text) s h =
      elim (Bool-cases (is_some (find_paper paper_id s.papers.rows))) [
        | inr e ↦ ground (arith, e, h)
        | inl e ↦ ground (arith, e, keeps_mark extract (page_count rt text) s.jobs h)
      ]

  pub kept_step_extract :
      (rt : Runtime) (paper_id : ℕ) (sha : Text) → Keeps OfJobs (step_extract rt k paper_id sha)
  unfolding step_extract set_state
  kept_step_extract rt paper_id sha s h =
      kept_text rt paper_id (extract_text rt (find_file sha s.files))
        (on_jobs (set_state k extracting none) s).1 (keeps_state extracting none s.jobs h)

  kept_tree :
      (indexer : TreeIndexer) (r : Result Failure TreeDocument)
      → Keeps OfJobs (keep_tree indexer k r)
  unfolding mark_step_done save_tree
  kept_tree indexer (ok tree) s h =
      keeps_mark index (tree_artifacts indexer (tree_path tree.sha256)) s.jobs h
  kept_tree indexer (err cancelled) s h = h
  kept_tree indexer (err (raised problem)) s h =
      keeps_mark index ((codes "tree_error", some problem) ∷ []) s.jobs h

  pub kept_step_index :
      (indexer : TreeIndexer) (sha : Text) (text : ExtractedText)
      → Keeps OfJobs (step_index indexer k sha text)
  unfolding step_index set_state
  kept_step_index indexer sha text s h =
      kept_if (is_step_done k index s.jobs) (pure []) (build_index indexer k sha text) s (λ e. h)
        (λ e.
          kept_tree indexer (indexer.build_tree sha text) (on_jobs (set_state k indexing none) s).1
            (keeps_state indexing none s.jobs h))

  kept_tagged : (rt : Runtime) (applied : AppliedTopics) → Keeps OfJobs (mark_tagged rt k applied)
  unfolding mark_step_done
  kept_tagged rt applied s h = keeps_mark tag (tag_artifacts rt applied) s.jobs h

  kept_extraction :
      (rt : Runtime) (p : PaperRow) (e : IngestExtraction) → Keeps OfJobs (keep_extraction rt k p e)
  unfolding update_paper
  kept_extraction rt p e s h =
      Keeps-bind OfJobs (on_taxonomy (apply_topic_assignments p.id e.topics)) (mark_tagged rt k)
        (λ s' h'. h') (kept_tagged rt) (on_papers (update_paper p.id (updates_for p e)) s).1 h

  kept_tag_paper :
      (rt : Runtime) (llm : LlmClient) (paper_id : ℕ) (text : ExtractedText) (o : Option PaperRow)
      → Keeps OfJobs (tag_paper rt llm k paper_id text o)
  kept_tag_paper rt llm paper_id text none s h = h
  kept_tag_paper rt llm paper_id text (some p) s h =
      kept_lift (ask_model llm (request_for p text (list_topics s.taxonomy)))
        (keep_extraction rt k p) (kept_extraction rt p) s h

  pub kept_step_tag :
      (rt : Runtime) (llm : LlmClient) (paper_id : ℕ) (text : ExtractedText)
      → Keeps OfJobs (step_tag rt llm k paper_id text)
  unfolding step_tag set_state
  kept_step_tag rt llm paper_id text s h =
      kept_if (is_step_done k tag s.jobs) (pure []) (run_tag rt llm k paper_id text) s (λ e. h)
        (λ e.
          kept_tag_paper rt llm paper_id text (get_paper s.papers paper_id)
            (on_jobs (set_state k tagging none) s).1 (keeps_state tagging none s.jobs h))

  kept_embedded :
      (rt : Runtime) (embedder : Embedder) (stored : Bool)
      → Keeps OfJobs (mark_embedded rt embedder k stored)
  unfolding mark_step_done
  kept_embedded rt embedder stored s h =
      keeps_mark embed (embed_artifacts rt embedder stored) s.jobs h

  kept_store_embedding :
      (embedder : Embedder) (paper_id : ℕ) (vector : List ℕ)
      → Keeps OfJobs (store_embedding embedder paper_id vector)
  unfolding store_embedding
  kept_store_embedding embedder paper_id vector s h = ground (arith, h)

  kept_vector :
      (rt : Runtime) (embedder : Embedder) (paper_id : ℕ) (vector : List ℕ)
      → Keeps OfJobs (store_vector rt embedder k paper_id vector)
  kept_vector rt embedder paper_id vector s h =
      Keeps-bind OfJobs (store_embedding embedder paper_id vector) (mark_embedded rt embedder k)
        (kept_store_embedding embedder paper_id vector) (kept_embedded rt embedder) s h

  kept_nothing : (rt : Runtime) → Keeps OfJobs (mark_nothing rt k)
  unfolding mark_step_done
  kept_nothing rt s h = keeps_mark embed (nothing_artifacts rt) s.jobs h

  kept_embed_paper :
      (rt : Runtime) (embedder : Embedder) (paper_id : ℕ) (o : Option PaperRow)
      → Keeps OfJobs (embed_paper rt embedder k paper_id o)
  kept_embed_paper rt embedder paper_id none s h = h
  kept_embed_paper rt embedder paper_id (some p) s h =
      let source : Text = source_of p s.taxonomy in
      kept_if (is_empty (strip source)) (mark_nothing rt k)
        (lift (encoded (embedder.encode source)) >>= store_vector rt embedder k paper_id) s
        (λ _. kept_nothing rt s h)
        (λ _.
          kept_lift (encoded (embedder.encode source)) (store_vector rt embedder k paper_id)
            (kept_vector rt embedder paper_id) s h)

  pub kept_step_embed :
      (rt : Runtime) (embedder : Embedder) (paper_id : ℕ)
      → Keeps OfJobs (step_embed rt embedder k paper_id)
  unfolding step_embed set_state
  kept_step_embed rt embedder paper_id s h =
      kept_if (is_step_done k embed s.jobs) (pure []) (run_embed rt embedder k paper_id) s (λ e. h)
        (λ e.
          kept_embed_paper rt embedder paper_id (get_paper s.papers paper_id)
            (on_jobs (set_state k embedding none) s).1 (keeps_state embedding none s.jobs h))
