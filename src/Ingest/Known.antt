-- ===== src/Ingest/Known.antt =====
-- What arXiv says of a paper survives the answer of the model.
use mouseion.Prelude.{ℕ, ◌≡◌, refl, sym, ◌∙◌, subst, Option, none, some, Bool-cases, inl, inr}
use mouseion.Text.{Text}
use mouseion.Effect.{Result, ok, err, Keeps, Keeps-bind, ◌>>=◌}
use mouseion.Extraction.{IngestExtraction}
use mouseion.Taxonomy.Lookup.{list_topics}
use mouseion.Taxonomy.Create.{AppliedTopics, apply_topic_assignments}
use mouseion.Jobs.{tag, tagging, is_step_done, set_state, mark_step_done}
use mouseion.Papers.{PaperRow, with_fields, get_paper, update_paper}
use mouseion.Papers.Rows.{get_paper-update_paper, find_paper-id}
use mouseion.Ingest.{
  Library, IngestFault, on_jobs, on_papers, on_taxonomy, Runtime, LlmClient, ExtractedText, Column,
  title, authors, year, venue, abstract, KnownValue,
}
use mouseion.Ingest.Fetch.{lift}
use mouseion.Ingest.Tag.{
  known_value, ask_model, request_for, updates_for, mark_tagged, keep_extraction, tag_paper,
  step_tag,
}

-- A column with a known value has it after the updates.
known_value-updates_for :
    (p : PaperRow) (e : IngestExtraction) (c : Column) (v : KnownValue)
    → known_value p c ≡ some v
    → known_value (with_fields (updates_for p e) p) c ≡ some v
unfolding updates_for
known_value-updates_for p e title v h = rw h h
known_value-updates_for p e authors v h = rw h h
known_value-updates_for p e year v h = rw h h
known_value-updates_for p e venue v h = rw h h
known_value-updates_for p e abstract v h = rw h h

module _ (paper_id : ℕ) (c : Column) (v : KnownValue) where
  -- The paper has the value in the column.
  abbrev pub Knows : Library → Type 0
  Knows s = (p : PaperRow) × (get_paper s.papers paper_id ≡ some p) × (known_value p c ≡ some v)

  module _ (rt : Runtime) (llm : LlmClient) (k : Text) where
    Knows-keep_extraction :
        (p : PaperRow) (e : IngestExtraction) (s : Library)
        → get_paper s.papers paper_id ≡ some p
        → known_value p c ≡ some v
        → p.id ≡ paper_id
        → Knows (keep_extraction rt k p e s).1
    unfolding update_paper mark_step_done
    Knows-keep_extraction p e s found known same =
        Keeps-bind Knows (on_taxonomy (apply_topic_assignments p.id e.topics)) (mark_tagged rt k)
          (λ s' h. h) (λ applied s' h. marked applied s' h)
          (on_papers (update_paper p.id (updates_for p e)) s).1
          (
            with_fields (updates_for p e) p,
            subst
                (λ i.
                  get_paper (update_paper i (updates_for p e) s.papers).1 paper_id
                  ≡ some (with_fields (updates_for p e) p))
                (sym same) (get_paper-update_paper paper_id (updates_for p e) s.papers p found),
            known_value-updates_for p e c v known,
          )
      where
        marked : (applied : AppliedTopics) → Keeps Knows (mark_tagged rt k applied)
        marked applied s' h = h

    Knows-tag_paper :
        (text : ExtractedText) (o : Option PaperRow) (s : Library)
        → get_paper s.papers paper_id ≡ o
        → Knows s
        → Knows (tag_paper rt llm k paper_id text o s).1
    unfolding get_paper
    Knows-tag_paper text none s e h = h
    Knows-tag_paper text (some p) s e (q, found, known) =
        let same : Path (Option PaperRow) (some q) (some p) = sym found ∙ e in
        kept_answer (ask_model llm (request_for p text (list_topics s.taxonomy))) (λ x.
          Knows-keep_extraction p x s e (subst (λ o. known_of o ≡ some v) same known)
            (find_paper-id paper_id s.papers.rows p e))
      where
        known_of : Option PaperRow → Option KnownValue
        known_of none = none
        known_of (some r) = known_value r c

        kept_answer :
            (r : Result IngestFault IngestExtraction)
            → ((x : IngestExtraction) → Knows (keep_extraction rt k p x s).1)
            → Knows ((lift r >>= keep_extraction rt k p) s).1
        kept_answer (ok x) kx = kx x
        kept_answer (err f) kx = (q, found, known)

    -- A column of the paper's metadata that has a value keeps it through the tagging step, whatever the
    -- model answers and however the step ends: only what is missing is filled.
    pub step_tag-Knows : (text : ExtractedText) → Keeps Knows (step_tag rt llm k paper_id text)
    unfolding step_tag set_state
    step_tag-Knows text s h = elim (Bool-cases (is_step_done k tag s.jobs)) [
      | inl e ↦ rw (e, step_tag) h
      | inr e ↦
          rw (e, step_tag)
            (Knows-tag_paper text (get_paper s.papers paper_id)
              (on_jobs (set_state k tagging none) s).1 refl h)
    ]
