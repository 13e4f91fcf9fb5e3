-- ===== src/Qa/Prepare.antt =====
-- `prepare_collection_qa` and `prepare_paper_qa` of qa.py: from the candidates to the prompt. The metrics of
-- the model are left out, and so is the topic, which is passed through.
use mouseion.Prelude.{
  ℕ, ◌+◌, ◌≤◌, Bool, true, false, not, Option, none, some, List, [], ◌∷◌, ◌++◌, take, map, is_empty,
  length,
}
use mouseion.Text.{Text}
use mouseion.Effect.{Result, ok, err}
use mouseion.Llm.{LlmFault}
use mouseion.Tree.{NodeInfo, TreeDocument, iter_nodes}
use mouseion.Ingest.{Library, Runtime}
use mouseion.Prompts.{GroundingExcerpt, build_grounding_prompt}
use mouseion.Qa.{SectionGrounding, PaperGrounding, total_chars}
use mouseion.Qa.Budget.{budget_grounding_material}
use mouseion.Qa.History.{Message, bound_history}
use mouseion.Qa.Fusion.{HybridCandidate}
use mouseion.Qa.Gather.{QaFault, QaSettings, load_tree, gather_grounding_material_for_paper}
use mouseion.Qa.Bounds.{history_chars, budget_grounding_material-le, bound_history-le}

-- the other settings that are read
pub record PrepareSettings : Type 0 where
  pub qa_max_navigations : ℕ
  pub qa_context_budget_chars : ℕ
  pub qa_history_messages : ℕ
  pub qa_history_budget_chars : ℕ

pub record PreparedQa (F : Type 0) : Type 0 where
  pub prior_messages : List Message
  pub materials : List (PaperGrounding F)
  pub prompt : Text
  pub candidate_count : ℕ
  pub navigation_count : ℕ

abbrev pub tree_has_nodes : Option TreeDocument → Bool
tree_has_nodes none = false
tree_has_nodes (some tree) = not (is_empty (iter_nodes tree))

abbrev pub count_one : Bool → ℕ
count_one true = 1
count_one false = 0

module _ {F : Type 0} where
  abbrev pub excerpt_of : PaperGrounding F → SectionGrounding → GroundingExcerpt
  excerpt_of m s = record {
    paper_id = m.paper_id;
    paper_title = m.title;
    section = s.section;
    text = s.text;
  }

  unfoldable pub prompt_excerpts : List (PaperGrounding F) → List GroundingExcerpt
  prompt_excerpts [] = []
  prompt_excerpts (m ∷ ms) = map (excerpt_of m) m.sections ++ prompt_excerpts ms

module _ {F : Type 0} (lower : F → F → Bool) (rt : Runtime) (settings : QaSettings)
    (limits : PrepareSettings) (str : ℕ → Text) (casefold : Text → Text)
    (navigate_in : TreeDocument → Result LlmFault (List NodeInfo)) (s : Library) where
  abbrev pub cons_material :
      Result QaFault (PaperGrounding F)
      → Result QaFault (List (PaperGrounding F))
      → Result QaFault (List (PaperGrounding F))
  cons_material (err e) rest = err e
  cons_material (ok m) (err e) = err e
  cons_material (ok m) (ok ms) = ok (m ∷ ms)

  -- the loop over the candidates, which ends at the first exception
  unfoldable pub gather_all : List (HybridCandidate F) → Result QaFault (List (PaperGrounding F))
  gather_all [] = ok []
  gather_all (c ∷ cs) =
      cons_material
        (gather_grounding_material_for_paper rt settings str casefold navigate_in s c.paper_id
          c.score true)
        (gather_all cs)

  abbrev pub navigations : List (HybridCandidate F) → ℕ
  navigations [] = 0
  navigations (c ∷ cs) = count_one (tree_has_nodes (load_tree s c.paper_id)) + navigations cs

  abbrev pub prepared : Text → List Message → ℕ → ℕ → List (PaperGrounding F) → PreparedQa F
  prepared question prior candidates navigated gathered =
      let materials = budget_grounding_material lower gathered limits.qa_context_budget_chars in
      record {
        prior_messages =
            bound_history prior limits.qa_history_messages limits.qa_history_budget_chars;
        materials = materials;
        prompt = build_grounding_prompt question (prompt_excerpts materials);
        candidate_count = candidates;
        navigation_count = navigated;
      }

  abbrev pub prepare :
      Text
      → List Message
      → ℕ
      → ℕ
      → Result QaFault (List (PaperGrounding F))
      → Result QaFault (PreparedQa F)
  prepare question prior candidates navigated (err e) = err e
  prepare question prior candidates navigated (ok gathered) =
      ok (prepared question prior candidates navigated gathered)

  -- `candidates` is the first result of `hybrid_candidates`.
  unfoldable pub prepare_collection_qa :
      Text → List Message → List (HybridCandidate F) → Result QaFault (PreparedQa F)
  prepare_collection_qa question prior candidates =
      let navigated = take limits.qa_max_navigations candidates in
      prepare question prior (length candidates) (navigations navigated) (gather_all navigated)

  -- the score is 1.0
  unfoldable pub prepare_paper_qa : F → ℕ → Text → List Message → Result QaFault (PreparedQa F)
  prepare_paper_qa one paper_id question prior =
      prepare question prior 1 (count_one (tree_has_nodes (load_tree s paper_id))) (
        cons_material
          (gather_grounding_material_for_paper rt settings str casefold navigate_in s paper_id one
            true)
          (ok []))

  -- What is prepared keeps both budgets: that of the context and that of the history, and the number
  -- of the messages.
  abbrev pub WithinBudgets : Result QaFault (PreparedQa F) → Type 0
  WithinBudgets (err e) = Unit
  WithinBudgets (ok p) =
      (total_chars p.materials ≤ limits.qa_context_budget_chars)
      × (history_chars p.prior_messages ≤ limits.qa_history_budget_chars)
      × (length p.prior_messages ≤ limits.qa_history_messages)

  prepare-WithinBudgets :
      (question : Text) (prior : List Message) (candidates navigated : ℕ)
      (gathered : Result QaFault (List (PaperGrounding F)))
      → WithinBudgets (prepare question prior candidates navigated gathered)
  prepare-WithinBudgets question prior candidates navigated (err e) = tt
  prepare-WithinBudgets question prior candidates navigated (ok gathered) =
      let (chars, few) =
        bound_history-le prior limits.qa_history_messages limits.qa_history_budget_chars in
      (budget_grounding_material-le lower gathered limits.qa_context_budget_chars, chars, few)

  -- What is prepared for a collection question keeps the budget of the context, that of the history, and
  -- the number of the messages, whatever is gathered.
  pub prepare_collection_qa-WithinBudgets :
      (question : Text) (prior : List Message) (candidates : List (HybridCandidate F))
      → WithinBudgets (prepare_collection_qa question prior candidates)
  unfolding prepare_collection_qa
  prepare_collection_qa-WithinBudgets question prior candidates =
      let navigated : List (HybridCandidate F) = take limits.qa_max_navigations candidates in
      prepare-WithinBudgets question prior (length candidates) (navigations navigated)
        (gather_all navigated)
