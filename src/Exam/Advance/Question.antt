-- ===== src/Exam/Advance/Question.antt =====
-- The question that a session shows is the one that was put last.
use mouseion.Prelude.{
  ℕ, ◌≡◌, ◌≢◌, refl, sym, ap, ◌∙◌, true, some, List, [], ◌∷◌, ◌++◌, arith, reverse,
}
use mathlib.Core.List.{reverse-append}
use mouseion.Text.{Text}
use mouseion.Effect.{ok, ok_inj}
use mouseion.Exam.Session.{
  ExamPhase, probe, verdict, Turn, ExamState, SessionRow, Sessions, find_session,
}
use mouseion.Exam.Ground.{Services, Settings}
use mouseion.Exam.Advance.{advance_session}
use mouseion.Exam.Turns.{
  AdvanceResult, is_assistant, asks, text_or_none, first_question, current_question,
}
use mouseion.Exam.Advance.Step.{Asking, first, again, next, failed, settled, ended, asked}
use mouseion.Exam.Advance.Cases.{advance_session-Step}

first_question-last :
    (ph : ExamPhase) (ts : List Turn) (t : Turn)
    → is_assistant t.role ≡ true
    → asks t.kind ≡ true
    → first_question ph (reverse (ts ++ t ∷ [])) ≡ text_or_none t.content
first_question-last ph ts t by asking = rw (reverse-append ts (t ∷ [])) (ground (arith, by, asking))

asked_by :
    {r : SessionRow} {turn : Turn} {state : ExamState}
    → Asking r turn state
    → is_assistant turn.role ≡ true
asked_by (first p ps now ph) = refl
asked_by (again p now ph here fresh) = refl
asked_by (next p now ph here) = refl

asked_as :
    {r : SessionRow} {turn : Turn} {state : ExamState} → Asking r turn state → asks turn.kind ≡ true
asked_as (first p ps now ph) = refl
asked_as (again p now ph here fresh) = refl
asked_as (next p now ph here) = refl

-- After an answer to an active session that leaves it active, the question that the session shows is
-- the text that was returned to the user, or none if that is empty.
pub advance_session-question :
    (services : Services) (settings : Settings) (now k : ℕ) (answer : Text) (s : Sessions)
    (r : SessionRow) (res : AdvanceResult)
    → find_session k s.rows ≡ some r
    → (advance_session services settings now k answer s).0 ≡ ok res
    → res.session.phase ≢ verdict
    → current_question res.session ≡ text_or_none res.assistant_text
unfolding current_question
advance_session-question services settings now k answer s r res found h active =
    elim (advance_session-Step services settings now s k answer r found) [
      | failed x a eq ↦ cc (h, ap (λ p. p.0) eq)
      | settled ph eq ↦
          absurd (active (ap (λ x. x.session.phase) (ok_inj res _ (sym h ∙ ap (λ p. p.0) eq)) ∙ ph))
      | ended ts n v a count eq ↦
          absurd (active (ap (λ x. x.session.phase) (ok_inj res _ (sym h ∙ ap (λ p. p.0) eq))))
      | asked ts turn state how few eq ↦
          rw (ok_inj res _ (sym h ∙ ap (λ p. p.0) eq))
            (first_question-last probe ts turn (asked_by how) (asked_as how))
    ]
