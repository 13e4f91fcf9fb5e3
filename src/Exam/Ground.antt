-- ===== src/Exam/Ground.antt =====
-- What the examiner asks of the other services: the section tree of a paper, its grounding material,
-- and the model's plan and verdict, which `complete_json` validates against the sections offered.
pub mod Sections
use mouseion.Prelude.{
  ℕ, ◌+◌, ◌-◌, Bool, true, false, not, ◌&&◌, Option, none, some, List, [], ◌∷◌, ◌++◌, map, any,
  if◌then◌else◌, is_empty, length, keep, take, drop,
}
use mouseion.Text.{Text, codes, text_eq, strip}
use mouseion.Effect.{Result, ok, err, Exec, pure, raise, raise_if, or_raise, ◌>>=◌, ◌>>◌}
use mouseion.Llm.{LlmFault, Retry, complete_json}
use mouseion.Exam.Schema.{ExamProbe, ExamVerdict, Problem, validate_plan, validate_verdict, member}
use mouseion.Exam.Session.{
  Turn, Role, assistant, user, ExamSession, ExamFault, material_not_found, no_tree, no_excerpts,
  llm_failed, ExamDb,
}

pub record Settings : Type 0 where
  pub test_session_ttl_hours : ℕ
  pub test_max_turns : ℕ
  pub llm_max_attempts : ℕ

pub record SectionGrounding : Type 0 where
  pub section : Text
  pub text : Text

pub record Material : Type 0 where
  pub title : Text
  pub sections : List SectionGrounding

-- the arguments of `build_exam_probe_prompt`
pub record ProbeRequest : Type 0 where
  pub paper_title : Text
  pub explanation : Text
  pub excerpts : List SectionGrounding

-- the arguments of `build_exam_verdict_prompt`
pub record VerdictRequest : Type 0 where
  pub paper_title : Text
  pub transcript : List Turn
  pub excerpts : List SectionGrounding

-- The other services. `paper_title` is the row's title, `tree_titles` the titles of the nodes that
-- `load_tree` gives, `gather` is `gather_grounding_material_for_paper`, none where it raises
-- QANotFoundError; `ask_probes` and `ask_verdict` post a request with the retries appended, the
-- `decode` fields read the shape of an answer, and `report` renders an objection.
pub record Services : Type 0 where
  pub paper_title : ℕ → Option (Option Text)
  pub tree_titles : ℕ → Option (List Text)
  pub gather : ℕ → Text → Option Material
  pub ask_probes : ProbeRequest → List Retry → Result LlmFault Text
  pub ask_verdict : VerdictRequest → List Retry → Result LlmFault Text
  pub decode_probes : Text → Result Text (List ExamProbe)
  pub decode_verdict : Text → Result Text ExamVerdict
  pub report : Problem → Text
  pub casefold : Text → Text
  pub is_word : ℕ → Bool

abbrev pub reported : {A : Type 0} → (Problem → Text) → Result Problem A → Result Text A
reported report (ok a) = ok a
reported report (err e) = err (report e)

-- `model_validate_json` with `allowed_sections` in the context
abbrev pub then_validate : {A B : Type 0} → Result Text A → (A → Result Text B) → Result Text B
then_validate (ok a) f = f a
then_validate (err e) f = err e

abbrev pub from_llm : {A : Type 0} → Result LlmFault A → ExamDb A
from_llm (ok a) = pure a
from_llm (err e) = raise (llm_failed e)

module _ (services : Services) where
  -- `any(node.title.strip() for node in tree.iter_nodes())`
  abbrev pub any_title : List Text → Bool
  any_title titles = any (λ t. not (is_empty (strip t))) titles

  abbrev pub usable_tree : List Text → ExamDb (List Text)
  usable_tree titles = do raise_if (not (any_title titles)) no_tree; pure titles

  -- `_require_tree`
  unfoldable pub require_tree : ℕ → ExamDb (List Text)
  require_tree paper = or_raise (services.tree_titles paper) no_tree >>= usable_tree

  -- `_actual_sections`
  abbrev pub actual_sections : List Text → List SectionGrounding → List SectionGrounding
  actual_sections titles sections =
      let known = keep (λ t. not (is_empty t)) (map strip titles) in
      keep (λ s. member s.section known && not (is_empty (strip s.text))) sections

  -- `if not sections: raise` and the return
  abbrev pub readable : List Text → Material → ExamDb Material
  readable titles material = do
    raise_if (is_empty (actual_sections titles material.sections)) no_excerpts
    pure (record material { sections = actual_sections titles material.sections })

  abbrev pub gather_sections : ℕ → Text → List Text → ExamDb Material
  gather_sections paper question titles =
      or_raise (services.gather paper (take 8000 question)) material_not_found >>= readable titles

  -- `_ground_sections`
  unfoldable pub ground_sections : ℕ → Text → ExamDb Material
  ground_sections paper question = require_tree paper >>= gather_sections paper question

  abbrev pub section_names : Material → List Text
  section_names material = map (λ s. s.section) material.sections

  abbrev pub probe_question : Text → Text
  probe_question explanation =
      codes
        "Find concrete methodology, results, and limitations sections that expose what this explanation skipped or got wrong:"
      ++ 10 ∷ take 6000 explanation

  abbrev pub probe_request : Text → Material → ProbeRequest
  probe_request explanation material = record {
    paper_title = material.title;
    explanation = explanation;
    excerpts = material.sections;
  }

  -- the call of `complete_json` in `_plan_probes`
  unfoldable pub complete_plan : Settings → Text → Material → Result LlmFault (List ExamProbe)
  complete_plan settings explanation material =
      complete_json (services.ask_probes (probe_request explanation material))
        (λ content.
          then_validate (services.decode_probes content)
            (λ probes. reported services.report (validate_plan (section_names material) probes)))
        none settings.llm_max_attempts

  -- `_plan_probes`
  unfoldable pub plan_probes : Settings → ExamSession → Text → ExamDb (List ExamProbe)
  plan_probes settings session explanation = do
    material ← ground_sections session.paper_id (probe_question explanation)
    from_llm (complete_plan settings explanation material)

  abbrev pub role_name : Role → Text
  role_name assistant = codes "assistant"
  role_name user = codes "user"

  -- the lines of `_transcript_query`, joined
  abbrev pub rendered : List Turn → List Text
  rendered [] = []
  rendered (t ∷ ts) =
      let content = strip t.content in
      let rest = rendered ts in
      if is_empty content then rest else (role_name t.role ++ codes ": " ++ content) ∷ rest

  abbrev pub join_lines : List Text → Text
  join_lines [] = []
  join_lines (l ∷ ls) = if is_empty ls then l else l ++ 10 ∷ join_lines ls

  -- `text[-n:]`
  abbrev pub last_of : ℕ → Text → Text
  last_of n text = drop (length text - n) text

  abbrev pub transcript_query : List Turn → Text
  transcript_query transcript =
      codes
        "Find the paper sections needed to grade problem, methodology, results, limitations, and any contradictions in this oral-exam transcript:"
      ++ 10 ∷ last_of 7000 (join_lines (rendered transcript))

  abbrev pub verdict_request : List Turn → Material → VerdictRequest
  verdict_request transcript material = record {
    paper_title = material.title;
    transcript = transcript;
    excerpts = material.sections;
  }

  -- the call of `complete_json` in `_build_verdict`
  unfoldable pub complete_verdict : Settings → List Turn → Material → Result LlmFault ExamVerdict
  complete_verdict settings transcript material =
      complete_json (services.ask_verdict (verdict_request transcript material))
        (λ content.
          then_validate (services.decode_verdict content)
            (λ v. reported services.report (validate_verdict (section_names material) v)))
        none settings.llm_max_attempts

  -- `_build_verdict`
  unfoldable pub build_verdict : Settings → ExamSession → List Turn → ExamDb ExamVerdict
  build_verdict settings session transcript = do
    material ← ground_sections session.paper_id (transcript_query transcript)
    from_llm (complete_verdict settings transcript material)
