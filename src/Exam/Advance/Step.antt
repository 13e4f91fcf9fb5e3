-- ===== src/Exam/Advance/Step.antt =====
-- The ways in which an answer ends: what it returns and what is stored.
use mouseion.Prelude.{
  ℕ, suc, ◌<◌, ◌≡◌, ◌≢◌, ◌⊎◌, true, false, none, some, List, [], ◌∷◌, ◌++◌, get_elem?, max,
}
use mouseion.Effect.{Result, ok, err}
use mouseion.Exam.Schema.{ExamProbe, ExamVerdict}
use mouseion.Exam.Session.{
  explain, probe, verdict, Turn, ExamState, SessionRow, Sessions, ExamFault, change_session,
  session_from_row, from_raw,
}
use mouseion.Exam.Ground.{Services, Settings}
use mouseion.Exam.Advance.{active_row, completed_row}
use mouseion.Exam.Turns.{AdvanceResult, probe_as_turn, pushback_as_turn}

-- How the state of the exam moves when a question is asked.
pub data Asking (r : SessionRow) : Turn → ExamState → Type 0 where
  first :
      (p : ExamProbe) (ps : List ExamProbe) (now : ℕ)
      → r.phase ≡ explain
      → Asking r
          (probe_as_turn p now)
          (record { probes = p ∷ ps; probe_index = 0; pushback_used = false })
  again :
      (p : ExamProbe) (now : ℕ)
      → r.phase ≡ probe
      → get_elem? (from_raw r.state).probes (from_raw r.state).probe_index ≡ some p
      → (from_raw r.state).pushback_used ≡ false
      → Asking r (pushback_as_turn p now) (record (from_raw r.state) { pushback_used = true })
  next :
      (p : ExamProbe) (now : ℕ)
      → r.phase ≡ probe
      → get_elem? (from_raw r.state).probes (suc (from_raw r.state).probe_index) ≡ some p
      → Asking r (probe_as_turn p now) (record (from_raw r.state) {
        probe_index = suc (from_raw r.state).probe_index;
        pushback_used = false;
      })

module _ (services : Services) (settings : Settings) (now : ℕ) (s : Sessions) (r : SessionRow) where
  -- the row and the result of a question
  abbrev pub asked_row : List Turn → Turn → ExamState → SessionRow → SessionRow
  asked_row transcript turn state =
      active_row services settings now probe (transcript ++ turn ∷ []) state (suc r.turn_count)

  pub data Step (out : Result ExamFault AdvanceResult × Sessions) : Type 0 where
    failed : (e : ExamFault) → r.phase ≢ verdict → out ≡ (err e, s) → Step out
    settled :
        r.phase ≡ verdict
        → out ≡ (
          ok (record {
            session = session_from_row r;
            assistant_text = [];
            verdict = (session_from_row r).verdict;
          }),
          s,
        )
        → Step out
    ended :
        (transcript : List Turn) (n : ℕ) (v : ExamVerdict)
        → r.phase ≢ verdict
        → (n ≡ r.turn_count) ⊎ (n ≡ suc r.turn_count)
        → out ≡ (
          ok (record {
            session = session_from_row (completed_row services settings now transcript n v r);
            assistant_text = [];
            verdict = some v;
          }),
          record s {
            rows = change_session r.id (completed_row services settings now transcript n v) s.rows;
          },
        )
        → Step out
    asked :
        (transcript : List Turn) (turn : Turn) (state : ExamState)
        → Asking r turn state
        → suc r.turn_count < max 1 settings.test_max_turns
        → out ≡ (
          ok (record {
            session = session_from_row (asked_row transcript turn state r);
            assistant_text = turn.content;
            verdict = none;
          }),
          record s { rows = change_session r.id (asked_row transcript turn state) s.rows },
        )
        → Step out
