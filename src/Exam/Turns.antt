-- ===== src/Exam/Turns.antt =====
-- backend/src/mouseion/services/examiner.py: the turns of a transcript, `current_question` and
-- `session_is_expired`.
use mouseion.Prelude.{
  ℕ, ◌+◌, ◌*◌, Bool, true, false, ◌&&◌, Option, none, some, List, [], ◌∷◌, ◌++◌, if◌then◌else◌,
  is_empty, leb, max, reverse,
}
use mouseion.Text.{Text, codes}
use mouseion.Exam.Schema.{ExamProbe, ExamVerdict}
use mouseion.Exam.Session.{
  ExamPhase, explain, probe, verdict, Role, assistant, user, Kind, opening_turn, probe_turn,
  pushback_turn, Turn, ExamSession,
}
use mouseion.Exam.Ground.{Settings}

abbrev pub opening_question : Text
opening_question =
    codes
      "Explain the paper’s core idea in your own words. What problem does it address, and how does its approach work?"

pub record AdvanceResult : Type 0 where
  pub session : ExamSession
  pub assistant_text : Text
  pub verdict : Option ExamVerdict

abbrev pub plain_turn : Role → Kind → Text → ℕ → Turn
plain_turn role kind content now = record {
  role = role;
  kind = kind;
  content = content;
  created_at = now;
  section = none;
  focus = none;
  targets_gap = none;
}

-- the turn that puts a probe to the user
abbrev pub probe_as_turn : ExamProbe → ℕ → Turn
probe_as_turn p now = record (plain_turn assistant probe_turn p.question now) {
  section = some p.section;
  focus = some p.focus;
  targets_gap = some p.targets_gap;
}

abbrev pub pushback_text : ExamProbe → Text
pushback_text p =
    codes "That is still too vague. Be concrete without guessing: answer the question about §"
    ++ p.section
    ++ codes
        ", including the mechanism or evidence you think matters. I’ll move on after this response."

abbrev pub pushback_as_turn : ExamProbe → ℕ → Turn
pushback_as_turn p now = record (plain_turn assistant pushback_turn (pushback_text p) now) {
  section = some p.section;
}

-- `now + timedelta(hours=max(1, settings.test_session_ttl_hours))`
abbrev pub expiry : Settings → ℕ → ℕ
expiry settings now = now + 3600 * max 1 settings.test_session_ttl_hours

abbrev pub asks : Kind → Bool
asks opening_turn = true
asks probe_turn = true
asks pushback_turn = true
asks other = false

abbrev pub is_assistant : Role → Bool
is_assistant assistant = true
is_assistant user = false

abbrev pub text_or_none : Text → Option Text
text_or_none content = if is_empty content then none else some content

abbrev pub first_question : ExamPhase → List Turn → Option Text
first_question explain [] = some opening_question
first_question other [] = none
first_question phase (t ∷ ts) =
    if is_assistant t.role && asks t.kind then text_or_none t.content else first_question phase ts

unfoldable pub current_question : ExamSession → Option Text
current_question session = elim session.phase [
  | verdict ↦ none
  | explain ↦ first_question explain (reverse session.transcript)
  | probe ↦ first_question probe (reverse session.transcript)
]

unfoldable pub session_is_expired : ExamSession → ℕ → Bool
session_is_expired session now = elim session.phase [
  | verdict ↦ false
  | explain ↦ elim session.expires_at [ none ↦ false | some t ↦ leb t now ]
  | probe ↦ elim session.expires_at [ none ↦ false | some t ↦ leb t now ]
]
