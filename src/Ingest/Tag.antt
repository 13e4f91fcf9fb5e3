-- ===== src/Ingest/Tag.antt =====
-- The step `_step_tag` of ingest.py: one request to the model for the metadata that is missing, the
-- topics and the summaries.
use mouseion.Prelude.{
  ℕ, Bool, true, false, not, Option, none, some, List, [], ◌∷◌, ◌==◌, map, is_empty, is_some,
  if◌then◌else◌,
}
use mouseion.Text.{Text, codes}
use mouseion.Effect.{Result, ok, err, pure, ◌>>=◌, ◌>>◌}
use mouseion.Taxonomy.Store.{TopicRow}
use mouseion.Taxonomy.Lookup.{list_topics}
use mouseion.Taxonomy.Create.{AppliedTopics, apply_topic_assignments}
use mouseion.Extraction.{IngestExtraction, validate_extraction}
use mouseion.Llm.{complete_json}
use mouseion.Jobs.{tagging, tag, set_state, is_step_done, mark_step_done}
use mouseion.Papers.{
  PaperRow, join_authors, split_authors, PaperFields, no_fields, update_paper, get_paper,
}
use mouseion.Ingest.{
  IngestFault, paper_vanished, from_llm, Ingest, relabel, on_jobs, on_papers, on_taxonomy, numbers,
  strings, Runtime, ExtractedText, Column, title, authors, year, venue, abstract, KnownValue,
  a_text, a_year, a_list, IngestRequest, LlmClient, Warning, topic_dropped,
}
use mouseion.Ingest.Fetch.{lift}

abbrev pub known_text : Option Text → Option KnownValue
known_text none = none
known_text (some t) = if is_empty t then none else some (a_text t)

abbrev pub known_year : Option ℕ → Option KnownValue
known_year none = none
known_year (some y) = if y == 0 then none else some (a_year y)

abbrev pub known_list : List Text → Option KnownValue
known_list [] = none
known_list (a ∷ more) = some (a_list (a ∷ more))

-- `value` in the loop over the columns, where it is not false
abbrev pub known_value : PaperRow → Column → Option KnownValue
known_value p title = known_text p.title
known_value p authors = known_list (split_authors p.authors)
known_value p year = known_year p.year
known_value p venue = known_text p.venue
known_value p abstract = known_text p.abstract

abbrev pub metadata_fields : List Column
metadata_fields = title ∷ authors ∷ year ∷ venue ∷ abstract ∷ []

abbrev pub cons_known :
    Column → Option KnownValue → List (Column × KnownValue) → List (Column × KnownValue)
cons_known c none rest = rest
cons_known c (some v) rest = (c, v) ∷ rest

abbrev pub known_of : PaperRow → List Column → List (Column × KnownValue)
known_of p [] = []
known_of p (c ∷ cs) = cons_known c (known_value p c) (known_of p cs)

abbrev pub is_missing : PaperRow → Column → Bool
is_missing p c = not (is_some (known_value p c))

abbrev pub missing_of : PaperRow → List Column → List Column
missing_of p [] = []
missing_of p (c ∷ cs) = let rest = missing_of p cs in if is_missing p c then c ∷ rest else rest

unfoldable pub request_for : PaperRow → ExtractedText → List TopicRow → IngestRequest
request_for p text topics = record {
  paper_text = text.full_text;
  topics = topics;
  known = known_of p metadata_fields;
  missing = missing_of p metadata_fields;
}

abbrev pub valid_or : Text → Option IngestExtraction → Result Text IngestExtraction
valid_or problem none = err problem
valid_or problem (some e) = ok e

-- `IngestExtraction.model_validate_json`
abbrev pub validate_answer : LlmClient → Text → Result Text IngestExtraction
validate_answer llm content = elim (llm.decode content) [
  | err problem ↦ err problem
  | ok raw ↦ valid_or (llm.refusal content) (validate_extraction raw)
]

unfoldable pub ask_model : LlmClient → IngestRequest → Result IngestFault IngestExtraction
ask_model llm request =
    relabel from_llm
      (complete_json (llm.post request) (validate_answer llm) none llm.llm_max_attempts)

-- the value that is read for a column that is missing
abbrev pub if_missing {ℓ} : {A : Type ℓ} → Bool → Option A → Option A
if_missing true value = value
if_missing false value = none

-- `updates`; only what was missing is filled
unfoldable pub updates_for : PaperRow → IngestExtraction → PaperFields
updates_for p e = record no_fields {
  title = if_missing (is_missing p title) e.metadata.title;
  authors = if_missing (is_missing p authors) (join_authors e.metadata.authors);
  year = if_missing (is_missing p year) e.metadata.year;
  venue = if_missing (is_missing p venue) e.metadata.venue;
  abstract = if_missing (is_missing p abstract) e.metadata.abstract;
  summary_short = some e.summary_short;
  summary_long = some e.summary_long;
}

abbrev pub names_of : List TopicRow → List Text
names_of ts = map (λ (t : TopicRow). t.name) ts

abbrev pub tag_artifacts : Runtime → AppliedTopics → List (Text × Option Text)
tag_artifacts rt applied =
    (codes "topic_ids", some (rt.dumps (numbers applied.topic_ids)))
    ∷ (codes "created_topics", some (rt.dumps (strings (names_of applied.created))))
    ∷ []

-- the end of the step
abbrev pub mark_tagged : Runtime → Text → AppliedTopics → Ingest (List Warning)
mark_tagged rt k applied = do
  on_jobs (mark_step_done k tag (tag_artifacts rt applied))
  pure (map topic_dropped applied.dropped)

-- what follows the answer of the model
abbrev pub keep_extraction : Runtime → Text → PaperRow → IngestExtraction → Ingest (List Warning)
keep_extraction rt k p e = do
  on_papers (update_paper p.id (updates_for p e))
  applied ← on_taxonomy (apply_topic_assignments p.id e.topics)
  mark_tagged rt k applied

abbrev pub tag_paper :
    Runtime → LlmClient → Text → ℕ → ExtractedText → Option PaperRow → Ingest (List Warning)
tag_paper rt llm k paper_id text none s = (err (paper_vanished paper_id), s)
tag_paper rt llm k paper_id text (some p) s =
    (lift (ask_model llm (request_for p text (list_topics s.taxonomy))) >>= keep_extraction rt k p)
      s

abbrev pub tag_found : Runtime → LlmClient → Text → ℕ → ExtractedText → Ingest (List Warning)
tag_found rt llm k paper_id text s =
    tag_paper rt llm k paper_id text (get_paper s.papers paper_id) s

abbrev pub run_tag : Runtime → LlmClient → Text → ℕ → ExtractedText → Ingest (List Warning)
run_tag rt llm k paper_id text = do
  on_jobs (set_state k tagging none)
  tag_found rt llm k paper_id text

unfoldable pub step_tag : Runtime → LlmClient → Text → ℕ → ExtractedText → Ingest (List Warning)
step_tag rt llm k paper_id text s =
    if is_step_done k tag s.jobs then (ok [], s) else run_tag rt llm k paper_id text s
