-- ===== src/Exam/Advance.antt =====
-- The operations of the examiner: `create_session`, `_persist_active`, `_finalize`,
-- `ensure_session_current` and `advance_session`. One call is one
-- step: requests for the same session that overlap are not modelled.
pub mod Reads
pub mod Step
pub mod Writes
pub mod Cases
pub mod Progress
pub mod Question
use mouseion.Prelude.{
  ℕ, zero, suc, ◌+◌, ◌*◌, Bool, true, false, not, ◌&&◌, ◌||◌, Option, none, some, List, [], ◌∷◌,
  ◌++◌, if◌then◌else◌, is_empty, length, get_elem?, leb, max, reverse,
}
use mouseion.Text.{Text, codes, strip}
use mouseion.Effect.{Result, ok, err, pure, raise, or_raise, ◌>>=◌, ◌>>◌}
use mouseion.Exam.Schema.{ExamProbe, ExamVerdict}
use mouseion.Exam.Answer.{user_is_done, answer_is_vague}
use mouseion.Exam.Session.{
  ExamPhase, explain, probe, verdict, Role, assistant, user, Kind, opening_turn, probe_turn,
  pushback_turn, answer_turn, verdict_turn, Turn, ExamState, no_state, Gaps, SessionRow,
  ExamSession, ExamFault, paper_not_found, no_probe, ExamDb, get_session, update_session,
  insert_session,
}
use mouseion.Exam.Ground.{Services, Settings, require_tree, plan_probes, build_verdict}
use mouseion.Exam.Turns.{
  opening_question, plain_turn, probe_as_turn, pushback_text, pushback_as_turn, expiry, asks,
  is_assistant, text_or_none, first_question, current_question, session_is_expired, AdvanceResult,
}

module _ (services : Services) (settings : Settings) (now : ℕ) where
  abbrev pub new_session_row : ℕ → ℕ → SessionRow
  new_session_row paper id = record {
    id = id;
    paper_id = paper;
    phase = explain;
    turn_count = 0;
    transcript = plain_turn assistant opening_turn opening_question now ∷ [];
    state = no_state;
    rubric = none;
    score = none;
    gaps = record { misconceptions = []; reread = []; overall_summary = [] };
    created_at = now;
    updated_at = now;
    expires_at = some (expiry settings now);
    completed_at = none;
  }

  unfoldable pub create_session : ℕ → ExamDb ExamSession
  create_session paper = do
    or_raise (services.paper_title paper) (paper_not_found paper)
    require_tree services paper
    id ← insert_session (new_session_row paper)
    get_session id

  abbrev pub active_row : ExamPhase → List Turn → ExamState → ℕ → SessionRow → SessionRow
  active_row phase transcript state turn_count row = record row {
    transcript = transcript;
    phase = phase;
    turn_count = turn_count;
    state = state;
    updated_at = now;
    expires_at = some (expiry settings now);
  }

  -- `_persist_active`
  unfoldable pub persist_active :
      ExamSession → ExamPhase → List Turn → ExamState → ℕ → ExamDb ExamSession
  persist_active session phase transcript state turn_count = do
    update_session session.id (active_row phase transcript state turn_count)
    get_session session.id

  abbrev pub completed_row : List Turn → ℕ → ExamVerdict → SessionRow → SessionRow
  completed_row transcript turn_count v row = record row {
    transcript = transcript ++ plain_turn assistant verdict_turn v.overall.summary now ∷ [];
    rubric = some v.rubric;
    score = some v.overall.score;
    gaps = record {
      misconceptions = v.misconceptions;
      reread = v.reread;
      overall_summary = v.overall.summary;
    };
    phase = verdict;
    turn_count = turn_count;
    state = no_state;
    updated_at = now;
    completed_at = some now;
  }

  -- the statements of `_finalize` after the verdict is there
  unfoldable pub complete_session : ExamSession → List Turn → ℕ → ExamVerdict → ExamDb AdvanceResult
  complete_session session transcript turn_count v = do
    update_session session.id (completed_row transcript turn_count v)
    completed ← get_session session.id
    pure (record { session = completed; assistant_text = []; verdict = some v })

  -- `_finalize`
  unfoldable pub finalize : ExamSession → List Turn → ℕ → ExamDb AdvanceResult
  finalize session transcript turn_count = do
    v ← build_verdict services settings session transcript
    complete_session session transcript turn_count v

  -- `_finalize` on what is stored, as at the expiry of the session
  unfoldable pub finalize_stored : ExamSession → ExamDb AdvanceResult
  finalize_stored session = finalize session session.transcript session.turn_count

  abbrev pub settle : ExamSession → ExamDb ExamSession
  settle session =
      if session_is_expired session now
      then finalize_stored session >>= (λ result. pure result.session)
      else pure session

  unfoldable pub ensure_session_current : ℕ → ExamDb ExamSession
  ensure_session_current k = do session ← get_session k; settle session

  -- the turn is appended, the session stored, and its text returned
  unfoldable pub ask : ExamSession → List Turn → Turn → ExamState → ℕ → ExamDb AdvanceResult
  ask session transcript turn state turn_count = do
    active ← persist_active session probe (transcript ++ turn ∷ []) state turn_count
    pure (record { session = active; assistant_text = turn.content; verdict = none })

  -- `state.probes[0]` is put to the user.
  abbrev pub ask_first : ExamSession → List Turn → ℕ → List ExamProbe → ExamDb AdvanceResult
  ask_first session transcript turn_count [] = raise no_probe
  ask_first session transcript turn_count (p ∷ ps) =
      ask session transcript (probe_as_turn p now)
        (record { probes = p ∷ ps; probe_index = 0; pushback_used = false }) turn_count

  -- the EXPLAIN branch
  unfoldable pub answer_explain : ExamSession → Text → List Turn → ℕ → ExamDb AdvanceResult
  answer_explain session response transcript turn_count = do
    probes ← plan_probes services settings session response
    ask_first session transcript turn_count probes

  -- after the index went up: the next probe, or the verdict if there is none
  abbrev pub ask_next :
      ExamSession → List Turn → ℕ → ExamState → Option ExamProbe → ExamDb AdvanceResult
  ask_next session transcript turn_count state none = finalize session transcript turn_count
  ask_next session transcript turn_count state (some p) =
      ask session transcript (probe_as_turn p now) state turn_count

  -- the PROBE branch, at the probe of the index
  abbrev pub answer_probe :
      ExamSession → Text → List Turn → ℕ → Option ExamProbe → ExamDb AdvanceResult
  answer_probe session response transcript turn_count none = finalize session transcript turn_count
  answer_probe session response transcript turn_count (some p) =
      let state = session.state in
      if answer_is_vague services.casefold services.is_word response && not state.pushback_used
      then ask session transcript (pushback_as_turn p now) (record state { pushback_used = true })
          turn_count
      else let next = record state { probe_index = suc state.probe_index; pushback_used = false } in
        ask_next session transcript turn_count next (get_elem? state.probes next.probe_index)

  -- an answer to an active session that is not expired
  unfoldable pub answer_active : ExamSession → Text → ExamDb AdvanceResult
  answer_active session response =
      let transcript = session.transcript ++ plain_turn user answer_turn response now ∷ [] in
      let turn_count = suc session.turn_count in
      if user_is_done response || leb (max 1 settings.test_max_turns) turn_count
      then finalize session transcript turn_count
      else elim session.phase [
        | explain ↦ answer_explain session response transcript turn_count
        | other ↦
            answer_probe session response transcript turn_count
              (get_elem? session.state.probes session.state.probe_index)
      ]

  abbrev pub answer_session : Text → ExamSession → ExamDb AdvanceResult
  answer_session answer session = elim session.phase [
    | verdict ↦ pure (record { session = session; assistant_text = []; verdict = session.verdict })
    | other ↦
        if session_is_expired session now
        then finalize_stored session
        else answer_active session (strip answer)
  ]

  unfoldable pub advance_session : ℕ → Text → ExamDb AdvanceResult
  advance_session k answer = do session ← get_session k; answer_session answer session
