-- ===== src/Exam/Session.antt =====
-- The stored sessions: the table `test_sessions` of the migrations 0001 and 0003, the statements on
-- it, and the session that examiner.py reads from a row. A JSON column is the value that its text
-- denotes, and a time is a number of seconds.
pub mod Rows
pub mod State
use mouseion.Prelude.{
  ℕ, ◌+◌, Bool, true, false, ◌&&◌, Option, none, some, List, [], ◌∷◌, ◌++◌, ◌==◌, leb, min,
  if◌then◌else◌, is_empty, length, map,
}
use mouseion.Text.{Text, codes}
use mouseion.Effect.{Exec, Result, ok, err, gets, or_raise, pure, ◌>>=◌}
use mouseion.Llm.{LlmFault}
use mouseion.Exam.Schema.{
  Focus, ExamProbe, validate_probes, ExamRubric, ExamMisconception, ExamVerdict, Problem,
  validate_verdict,
}

pub data ExamPhase : Type 0 where
  explain probe verdict : ExamPhase

pub data Role : Type 0 where
  assistant user : Role

pub data Kind : Type 0 where
  opening_turn probe_turn pushback_turn answer_turn verdict_turn : Kind

-- one entry of the transcript; the last three are the metadata that some turns carry
pub record Turn : Type 0 where
  pub role : Role
  pub kind : Kind
  pub content : Text
  pub created_at : ℕ
  pub section : Option Text
  pub focus : Option Focus
  pub targets_gap : Option Bool

-- also the value of `state_json`, by `to_dict`
pub record ExamState : Type 0 where
  pub probes : List ExamProbe
  pub probe_index : ℕ
  pub pushback_used : Bool

abbrev pub no_state : ExamState
no_state = record { probes = []; probe_index = 0; pushback_used = false }

-- the value of `gaps_json`
pub record Gaps : Type 0 where
  pub misconceptions : List ExamMisconception
  pub reread : List Text
  pub overall_summary : Text

-- `rubric` is none for the text `{}`; `state` for `{}` is `no_state`.
pub record SessionRow : Type 0 where
  pub id : ℕ
  pub paper_id : ℕ
  pub phase : ExamPhase
  pub turn_count : ℕ
  pub transcript : List Turn
  pub state : ExamState
  pub rubric : Option ExamRubric
  pub score : Option ℕ
  pub gaps : Gaps
  pub created_at : ℕ
  pub updated_at : ℕ
  pub expires_at : Option ℕ
  pub completed_at : Option ℕ

pub record ExamSession : Type 0 where
  pub id : ℕ
  pub paper_id : ℕ
  pub phase : ExamPhase
  pub turn_count : ℕ
  pub transcript : List Turn
  pub state : ExamState
  pub verdict : Option ExamVerdict
  pub created_at : ℕ
  pub updated_at : ℕ
  pub expires_at : Option ℕ
  pub completed_at : Option ℕ

pub record Sessions : Type 0 where
  pub rows : List SessionRow
  pub last_id : ℕ

-- ExaminerNotFoundError for a session, a paper or its material, ExaminerConflictError without a tree
-- or without excerpts, the error of the model's client, and the IndexError of `probes[0]`
pub data ExamFault : Type 0 where
  session_not_found paper_not_found : ℕ → ExamFault
  material_not_found no_tree no_excerpts no_probe : ExamFault
  llm_failed : LlmFault → ExamFault

abbrev pub ExamDb : Type 0 → Type 0
ExamDb = Exec Sessions ExamFault

abbrev pub restore : ExamState → Option (List ExamProbe) → ExamState
restore raw none = no_state
restore raw (some probes) = record {
  probes = probes;
  probe_index = min raw.probe_index (length probes);
  pushback_used = raw.pushback_used;
}

-- `ExamState.from_raw`: one probe that does not validate loses the state.
unfoldable pub from_raw : ExamState → ExamState
from_raw raw = restore raw (validate_probes raw.probes)

abbrev pub or_completed : Text → Text
or_completed summary = if is_empty summary then codes "Exam completed." else summary

abbrev pub verdict_of : Result Problem ExamVerdict → Option ExamVerdict
verdict_of (ok v) = some v
verdict_of (err e) = none

abbrev pub stored_verdict : Option ExamRubric → Option ℕ → Gaps → Option ExamVerdict
stored_verdict r none gaps = none
stored_verdict none (some score) gaps = none
stored_verdict (some rubric) (some score) gaps = verdict_of (
    validate_verdict [] (record {
      rubric = rubric;
      misconceptions = gaps.misconceptions;
      reread = gaps.reread;
      overall = record { score = score; summary = or_completed gaps.overall_summary };
    }))

-- `_verdict_from_row`
unfoldable pub verdict_from_row : SessionRow → Option ExamVerdict
verdict_from_row row = stored_verdict row.rubric row.score row.gaps

-- `_session_from_row`
abbrev pub session_from_row : SessionRow → ExamSession
session_from_row row = record {
  id = row.id;
  paper_id = row.paper_id;
  phase = row.phase;
  turn_count = row.turn_count;
  transcript = row.transcript;
  state = from_raw row.state;
  verdict = verdict_from_row row;
  created_at = row.created_at;
  updated_at = row.updated_at;
  expires_at = row.expires_at;
  completed_at = row.completed_at;
}

-- SELECT * FROM test_sessions WHERE id = ?
abbrev pub find_session : ℕ → List SessionRow → Option SessionRow
find_session k [] = none
find_session k (r ∷ rs) = if r.id == k then some r else find_session k rs

unfoldable pub get_session : ℕ → ExamDb ExamSession
get_session k = do
  found ← gets (λ s. find_session k s.rows)
  row ← or_raise found (session_not_found k)
  pure (session_from_row row)

abbrev pub change_session : ℕ → (SessionRow → SessionRow) → List SessionRow → List SessionRow
change_session k f [] = []
change_session k f (r ∷ rs) = (if r.id == k then f r else r) ∷ change_session k f rs

-- UPDATE test_sessions SET ... WHERE id = ?
unfoldable pub update_session : ℕ → (SessionRow → SessionRow) → ExamDb Unit
update_session k f s = (ok tt, record s { rows = change_session k f s.rows })

-- INSERT INTO test_sessions, and its lastrowid
unfoldable pub insert_session : (ℕ → SessionRow) → ExamDb ℕ
insert_session row s =
    let id = s.last_id + 1 in (ok id, record s { rows = s.rows ++ row id ∷ []; last_id = id })
