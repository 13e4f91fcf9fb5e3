-- ===== src/Exam/Advance/Writes.antt =====
-- The two ways in which an answer writes: the verdict and a question.
use mouseion.Prelude.{ℕ, suc, ◌<◌, ◌≡◌, ◌≢◌, refl, ◌∙◌, ◌⊎◌, inl, inr, none, some, List, [], max}
use mouseion.Effect.{ok, pure, bind_ok}
use mouseion.Exam.Schema.{ExamVerdict}
use mouseion.Exam.Session.{
  verdict, Turn, ExamState, SessionRow, Sessions, get_session, update_session, find_session,
  change_session, session_from_row,
}
use mouseion.Exam.Session.Rows.{get_session-found, find_session-change}
use mouseion.Exam.Ground.{Services, Settings, build_verdict}
use mouseion.Exam.Advance.{completed_row, persist_active, complete_session, finalize, ask}
use mouseion.Exam.Advance.Reads.{read-then, build_verdict-Reads}
use mouseion.Exam.Advance.Step.{Asking, Step, failed, ended, asked, asked_row}

module _ (services : Services) (settings : Settings) (now : ℕ) (s : Sessions) (r : SessionRow)
    (found : find_session r.id s.rows ≡ some r) where
  -- the row that was written is the row that is read
  reread_row :
      (f : SessionRow → SessionRow)
      → ((x : SessionRow) → (f x).id ≡ x.id)
      → get_session r.id (record s { rows = change_session r.id f s.rows })
        ≡ (ok (session_from_row (f r)), record s { rows = change_session r.id f s.rows })
  reread_row f same =
      get_session-found r.id (record s { rows = change_session r.id f s.rows }) (f r)
        (find_session-change r.id f s.rows r same found)

  complete_session-done :
      (transcript : List Turn) (n : ℕ) (v : ExamVerdict)
      → complete_session services settings now (session_from_row r) transcript n v s ≡ (
        ok (record {
          session = session_from_row (completed_row services settings now transcript n v r);
          assistant_text = [];
          verdict = some v;
        }),
        record s {
          rows = change_session r.id (completed_row services settings now transcript n v) s.rows;
        },
      )
  unfolding complete_session update_session
  complete_session-done transcript n v =
      bind_ok (get_session r.id)
        (λ completed. pure (record { session = completed; assistant_text = []; verdict = some v }))
        _ _ _ (reread_row (completed_row services settings now transcript n v) (λ x. refl))

  pub finalize-Step :
      (transcript : List Turn) (n : ℕ)
      → r.phase ≢ verdict
      → (n ≡ r.turn_count) ⊎ (n ≡ suc r.turn_count)
      → Step services settings now s r
          (finalize services settings now (session_from_row r) transcript n s)
  unfolding finalize
  finalize-Step transcript n active count =
      elim (read-then (build_verdict services settings (session_from_row r) transcript)
        (λ v. complete_session services settings now (session_from_row r) transcript n v)
        (build_verdict-Reads services settings (session_from_row r) transcript) s) [
          | inl (e, eq) ↦ failed e active eq
          | inr (v, got, eq) ↦
              ended transcript n v active count (eq ∙ complete_session-done transcript n v)
        ]

  pub ask-Step :
      (transcript : List Turn) (turn : Turn) (state : ExamState)
      → Asking r turn state
      → suc r.turn_count < max 1 settings.test_max_turns
      → Step services settings now s r (
          ask services settings now (session_from_row r) transcript turn state (suc r.turn_count) s)
  unfolding ask persist_active update_session
  ask-Step transcript turn state how few = asked transcript turn state how few (
      bind_ok (get_session r.id)
        (λ active.
          pure (record { session = active; assistant_text = turn.content; verdict = none }))
        _ _ _ (reread_row (asked_row services settings now s r transcript turn state) (λ x. refl)))
