-- ===== src/Exam/Tests.antt =====
-- An exam on one paper, with a model that always answers the same, and the theorems at it.
use mouseion.Prelude.{
  ℕ, ◌≤◌, ◌<◌, ◌≡◌, refl, ◌⊎◌, true, false, none, some, List, [], ◌∷◌, ◌++◌, map, arith, any, max,
}
use mouseion.Text.{Text, codes, strip}
use mouseion.Effect.{Result, ok, err}
use mouseion.Llm.{LlmFault, llm_error}
use mouseion.Exam.Schema.{
  Focus, ExamProbe, RubricDimension, ExamVerdict, references, validate_probes,
}
use mouseion.Exam.Schema.Valid.{Offered}
use mouseion.Exam.Session.{
  ExamPhase, explain, probe, verdict, Turn, user, answer_turn, ExamState, no_state, SessionRow,
  Sessions, ExamSession, ExamFault, llm_failed, find_session, session_from_row, from_raw,
}
use mouseion.Exam.Session.State.{from_raw-validated}
use mouseion.Exam.Ground.{
  Services, Settings, SectionGrounding, Material, plan_probes, build_verdict,
}
use mouseion.Exam.Ground.Sections.{plan_probes-grounded, build_verdict-grounded}
use mouseion.Exam.Advance.{new_session_row, advance_session}
use mouseion.Exam.Turns.{AdvanceResult, plain_turn, probe_as_turn, current_question, text_or_none}
use mouseion.Exam.Advance.Step.{asked_row}
use mouseion.Exam.Advance.Progress.{
  IsOver, advance_all, advance_session-atomic, advance_session-frame, advance_session-bounded,
  advance_all-ends,
}
use mouseion.Exam.Advance.Question.{advance_session-question}

abbrev on_method : ExamProbe
on_method = record {
  question = codes "How?";
  section = codes "Method";
  focus = Focus.methodology;
  targets_gap = true;
  gap = codes "the loss";
}

abbrev on_results : ExamProbe
on_results = record {
  question = codes "So what?";
  section = codes "Results";
  focus = Focus.results_and_limitations;
  targets_gap = false;
  gap = codes "the error bars";
}

abbrev fair : RubricDimension
fair = record { score = 3; justification = codes "fair" }

abbrev fair_verdict : ExamVerdict
fair_verdict = record {
  rubric = record {
    problem_understanding = fair;
    method_understanding = fair;
    results_and_limitations = fair;
  };
  misconceptions = [];
  reread = codes "Method" ∷ [];
  overall = record { score = 3; summary = codes "Fair." };
}

abbrev demo_services : Result LlmFault Text → Services
demo_services reply = record {
  paper_title = λ p. some none;
  tree_titles = λ p. some (codes "Method" ∷ codes "Results" ∷ []);
  gather = λ p q. some (record {
    title = codes "A paper";
    sections =
        record { section = codes "Method"; text = codes "We train." }
        ∷ record { section = codes "Results"; text = codes "It works." }
        ∷ [];
  });
  ask_probes = λ r retries. reply;
  ask_verdict = λ r retries. reply;
  decode_probes = λ t. ok (on_method ∷ on_results ∷ []);
  decode_verdict = λ t. ok fair_verdict;
  report = λ p. codes "no";
  casefold = λ t. t;
  is_word = λ c. true;
}

abbrev working : Services
working = demo_services (ok (codes "json"))

abbrev failing : Services
failing = demo_services (err llm_error)

abbrev limits : ℕ → Settings
limits n = record { test_session_ttl_hours = 1; test_max_turns = n; llm_max_attempts = 2 }

abbrev started : SessionRow
started = new_session_row working (limits 9) 0 7 1

abbrev two_sessions : Sessions
two_sessions = record {
  rows = started ∷ new_session_row working (limits 9) 0 8 2 ∷ [];
  last_id = 2;
}

abbrev answer : Text
answer = codes "It trains a model."

plan_made :
    (plan_probes working (limits 9) (session_from_row started) answer two_sessions).0
    ≡ ok (on_method ∷ on_results ∷ [])
unfolding plan_probes mouseion.Exam.Ground.ground_sections mouseion.Exam.Ground.require_tree strip
    mouseion.Text.is_space mouseion.Exam.Ground.complete_plan mouseion.Llm.complete_json
    mouseion.Llm.attempt_from mouseion.Exam.Schema.validate_plan mouseion.Text.squeeze
plan_made = refl

verdict_made :
    (build_verdict working (limits 9) (session_from_row started) started.transcript two_sessions).0
    ≡ ok fair_verdict
unfolding build_verdict mouseion.Exam.Ground.ground_sections mouseion.Exam.Ground.require_tree strip
    mouseion.Text.is_space mouseion.Exam.Ground.complete_verdict mouseion.Llm.complete_json
    mouseion.Llm.attempt_from mouseion.Exam.Schema.validate_verdict mouseion.Text.squeeze
verdict_made = refl

model_down :
    (advance_session failing (limits 9) 5 1 answer two_sessions).0 ≡ err (llm_failed llm_error)
unfolding advance_session mouseion.Exam.Session.get_session mouseion.Exam.Turns.session_is_expired
    mouseion.Exam.Advance.answer_active mouseion.Exam.Answer.user_is_done mouseion.Text.lstrip
    mouseion.Exam.Advance.answer_explain plan_probes mouseion.Exam.Ground.ground_sections
    mouseion.Exam.Ground.require_tree strip mouseion.Text.is_space
    mouseion.Exam.Ground.complete_plan mouseion.Llm.complete_json mouseion.Llm.attempt_from
model_down = refl

abbrev asked_once : AdvanceResult
asked_once = record {
  session = session_from_row (
      asked_row working (limits 9) 5 two_sessions started
        (started.transcript ++ plain_turn user answer_turn answer 5 ∷ [])
        (probe_as_turn on_method 5)
        (record { probes = on_method ∷ on_results ∷ []; probe_index = 0; pushback_used = false })
        started);
  assistant_text = codes "How?";
  verdict = none;
}

first_answer : (advance_session working (limits 9) 5 1 answer two_sessions).0 ≡ ok asked_once
unfolding advance_session mouseion.Exam.Session.get_session mouseion.Exam.Session.from_raw
    mouseion.Exam.Session.verdict_from_row mouseion.Exam.Session.update_session
    mouseion.Exam.Turns.session_is_expired mouseion.Exam.Advance.answer_active
    mouseion.Exam.Answer.user_is_done mouseion.Text.lstrip mouseion.Text.squeeze
    mouseion.Exam.Advance.answer_explain plan_probes mouseion.Exam.Ground.complete_plan
    mouseion.Exam.Schema.validate_plan mouseion.Exam.Advance.ask
    mouseion.Exam.Advance.persist_active mouseion.Exam.Ground.ground_sections
    mouseion.Exam.Ground.require_tree strip mouseion.Text.is_space mouseion.Llm.complete_json
    mouseion.Llm.attempt_from
first_answer = refl

last_answer : (advance_all working (limits 1) 1 ((5, answer) ∷ []) two_sessions).0 ≡ ok tt
unfolding advance_session mouseion.Exam.Session.get_session mouseion.Exam.Session.from_raw
    mouseion.Exam.Session.verdict_from_row mouseion.Exam.Session.update_session
    mouseion.Exam.Turns.session_is_expired mouseion.Exam.Advance.answer_active
    mouseion.Exam.Answer.user_is_done mouseion.Text.lstrip mouseion.Text.squeeze
    mouseion.Exam.Advance.finalize mouseion.Exam.Advance.complete_session build_verdict
    mouseion.Exam.Ground.complete_verdict mouseion.Exam.Schema.validate_verdict
    mouseion.Exam.Ground.ground_sections mouseion.Exam.Ground.require_tree strip
    mouseion.Text.is_space mouseion.Llm.complete_json mouseion.Llm.attempt_from
last_answer = refl

abbrev blank_probe : ExamProbe
blank_probe = record on_results { question = codes " " }

abbrev stored_blank : ExamProbe
stored_blank = record on_results { question = [] }

blank_accepted :
    validate_probes (on_method ∷ blank_probe ∷ []) ≡ some (on_method ∷ stored_blank ∷ [])
unfolding strip mouseion.Text.squeeze mouseion.Text.is_space
blank_accepted = refl

abbrev over_row : SessionRow
over_row = record started { phase = verdict }

advance_all-ends_example :
    IsOver working (limits 1) 1 (advance_all working (limits 1) 1 ((5, answer) ∷ []) two_sessions).1
advance_all-ends_example =
    advance_all-ends working (limits 1) 1 ((5, answer) ∷ []) two_sessions started refl (omega arith)
      (omega arith) last_answer

advance_session-bounded_example :
    (r' : SessionRow) × (find_session 1
        (advance_session working (limits 9) 5 1 answer two_sessions).1.rows
      ≡ some r')
    × (asked_once.session ≡ session_from_row r')
    × ((r'.phase ≡ verdict) ⊎ ((r'.turn_count ≡ 1) × (1 < max 1 9)))
advance_session-bounded_example =
    advance_session-bounded working (limits 9) 5 1 answer two_sessions started asked_once refl
      first_answer

advance_session-atomic_example :
    (advance_session failing (limits 9) 5 1 answer two_sessions).1 ≡ two_sessions
advance_session-atomic_example =
    advance_session-atomic failing (limits 9) 5 1 answer two_sessions (llm_failed llm_error)
      model_down

advance_session-frame_example :
    find_session 2 (advance_session working (limits 9) 5 1 answer two_sessions).1.rows
    ≡ find_session 2 two_sessions.rows
advance_session-frame_example =
    advance_session-frame working (limits 9) 5 1 answer two_sessions 2 (ground arith)

advance_session-question_example : current_question asked_once.session ≡ text_or_none (codes "How?")
advance_session-question_example =
    advance_session-question working (limits 9) 5 1 answer two_sessions started asked_once refl
      first_answer (λ e. cc)

plan_probes-grounded_example :
    (titles : List Text) × (working.tree_titles 7 ≡ some titles)
    × (2 ≤ 2)
    × (2 ≤ 3)
    × (any (λ p. p.targets_gap) (on_method ∷ on_results ∷ []) ≡ true)
    × Offered (map strip titles) (codes "Method" ∷ codes "Results" ∷ [])
plan_probes-grounded_example =
    plan_probes-grounded working (limits 9) (session_from_row started) two_sessions answer
      (on_method ∷ on_results ∷ []) plan_made

build_verdict-grounded_example :
    (titles : List Text) × (working.tree_titles 7 ≡ some titles)
    × Offered (map strip titles) (references fair_verdict)
build_verdict-grounded_example =
    build_verdict-grounded working (limits 9) (session_from_row started) two_sessions
      started.transcript fair_verdict verdict_made

from_raw-validated_example :
    from_raw
      (record { probes = on_method ∷ stored_blank ∷ []; probe_index = 1; pushback_used = false })
    ≡ no_state
from_raw-validated_example =
    from_raw-validated (on_method ∷ blank_probe ∷ []) (on_method ∷ stored_blank ∷ []) 1 false
      blank_accepted (omega arith)
