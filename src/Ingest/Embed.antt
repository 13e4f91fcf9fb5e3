-- ===== src/Ingest/Embed.antt =====
-- The step `_step_embed` of ingest.py, with `build_embedding_source` and `store_embedding` of
-- embeddings.py.
use mouseion.Prelude.{
  ℕ, Bool, true, false, not, Option, none, some, List, [], ◌∷◌, ◌==◌, keep, is_empty, length,
  if◌then◌else◌,
}
use mouseion.Text.{Text, codes, strip}
use mouseion.Text.Split.{join_with}
use mouseion.Effect.{Result, ok, err, pure, ◌>>=◌, ◌>>◌}
use mouseion.Taxonomy.Store.{Store}
use mouseion.Taxonomy.Tagged.{topics_for_paper}
use mouseion.Jobs.{embedding, embed, set_state, is_step_done, mark_step_done}
use mouseion.Papers.{PaperRow, get_paper, stripped}
use mouseion.Ingest.{
  Embedding, IngestFault, paper_vanished, encoder_failed, Ingest, on_jobs, boolean, Runtime,
  Embedder, Warning, nothing_to_embed, vec_unavailable,
}
use mouseion.Ingest.Fetch.{lift}
use mouseion.Ingest.Steps.{blank_line}
use mouseion.Ingest.Tag.{names_of}

-- `(value or "").strip()`
abbrev pub stripped_or_empty : Option Text → Text
stripped_or_empty none = []
stripped_or_empty (some t) = strip t

abbrev pub not_blank : List Text → List Text
not_blank parts = keep (λ part. not (is_empty part)) parts

unfoldable pub build_embedding_source : Option Text → Option Text → List Text → Option Text → Text
build_embedding_source title abstract topic_names summary_long = join_with blank_line (
    not_blank (
      stripped_or_empty title
      ∷ stripped_or_empty abstract
      ∷ join_with (codes ", ") (stripped topic_names)
      ∷ stripped_or_empty summary_long
      ∷ []))

-- the DELETE and the INSERT of the vector, and the upsert of its record
abbrev pub put_embedding : Embedding → List Embedding → List Embedding
put_embedding e [] = e ∷ []
put_embedding e (f ∷ fs) = if f.paper_id == e.paper_id then e ∷ fs else f ∷ put_embedding e fs

unfoldable pub store_embedding : Embedder → ℕ → List ℕ → Ingest Bool
store_embedding embedder paper_id vector s = if not embedder.vec_loads then (ok false, s) else (
  ok true,
  record s {
    embeddings =
        put_embedding
          (record {
            paper_id = paper_id;
            vector = vector;
            model = embedder.model_name;
            dim = length vector;
            source = codes "title+abstract+topics+summary_long";
          })
          s.embeddings;
  },
)

-- `embedder.encode(source.text)`
abbrev pub encoded : Result Text (List ℕ) → Result IngestFault (List ℕ)
encoded (ok vector) = ok vector
encoded (err problem) = err (encoder_failed problem)

abbrev pub stored_warnings : Bool → List Warning
stored_warnings true = []
stored_warnings false = vec_unavailable ∷ []

abbrev pub embed_artifacts : Runtime → Embedder → Bool → List (Text × Option Text)
embed_artifacts rt embedder stored =
    (codes "embedded", some (rt.dumps (boolean stored)))
    ∷ (codes "embedding_model", some embedder.model_name)
    ∷ []

abbrev pub mark_embedded : Runtime → Embedder → Text → Bool → Ingest (List Warning)
mark_embedded rt embedder k stored = do
  on_jobs (mark_step_done k embed (embed_artifacts rt embedder stored))
  pure (stored_warnings stored)

abbrev pub store_vector : Runtime → Embedder → Text → ℕ → List ℕ → Ingest (List Warning)
store_vector rt embedder k paper_id vector = do
  stored ← store_embedding embedder paper_id vector
  mark_embedded rt embedder k stored

abbrev pub nothing_artifacts : Runtime → List (Text × Option Text)
nothing_artifacts rt = (codes "embedded", some (rt.dumps (boolean false))) ∷ []

abbrev pub mark_nothing : Runtime → Text → Ingest (List Warning)
mark_nothing rt k = do
  on_jobs (mark_step_done k embed (nothing_artifacts rt))
  pure (nothing_to_embed ∷ [])

-- An EmbeddingSource is false where its text is blank.
abbrev pub embed_source : Runtime → Embedder → Text → ℕ → Text → Ingest (List Warning)
embed_source rt embedder k paper_id source s =
    if is_empty (strip source)
    then mark_nothing rt k s
    else (lift (encoded (embedder.encode source)) >>= store_vector rt embedder k paper_id) s

abbrev pub source_of : PaperRow → Store → Text
source_of p s =
    build_embedding_source p.title p.abstract (names_of (topics_for_paper s p.id)) p.summary_long

abbrev pub embed_paper : Runtime → Embedder → Text → ℕ → Option PaperRow → Ingest (List Warning)
embed_paper rt embedder k paper_id none s = (err (paper_vanished paper_id), s)
embed_paper rt embedder k paper_id (some p) s =
    embed_source rt embedder k paper_id (source_of p s.taxonomy) s

abbrev pub embed_found : Runtime → Embedder → Text → ℕ → Ingest (List Warning)
embed_found rt embedder k paper_id s =
    embed_paper rt embedder k paper_id (get_paper s.papers paper_id) s

abbrev pub run_embed : Runtime → Embedder → Text → ℕ → Ingest (List Warning)
run_embed rt embedder k paper_id = do
  on_jobs (set_state k embedding none)
  embed_found rt embedder k paper_id

unfoldable pub step_embed : Runtime → Embedder → Text → ℕ → Ingest (List Warning)
step_embed rt embedder k paper_id s =
    if is_step_done k embed s.jobs then (ok [], s) else run_embed rt embedder k paper_id s
