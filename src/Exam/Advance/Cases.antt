-- ===== src/Exam/Advance/Cases.antt =====
-- Every answer ends in one of the ways of `Step`: the branches of `advance_session`.
use mouseion.Prelude.{
  ℕ, suc, ◌<◌, ◌≡◌, ◌≢◌, refl, ap, ◌∙◌, inl, inr, true, false, not, ◌&&◌, ◌||◌, Option, none, some,
  List, [], ◌∷◌, ◌++◌, arith, if◌then◌else◌, get_elem?, leb, max, Bool-cases, Option-cases,
}
use mouseion.Text.{Text, strip}
use mouseion.Effect.{err, pure, bind_ok, bind_err}
use mouseion.Exam.Schema.{ExamProbe}
use mouseion.Exam.Answer.{user_is_done, answer_is_vague}
use mouseion.Exam.Session.{
  ExamPhase, explain, probe, verdict, user, answer_turn, Turn, SessionRow, Sessions, no_probe,
  session_not_found, ExamDb, get_session, find_session, session_from_row, from_raw,
}
use mouseion.Exam.Session.Rows.{find_session-id, get_session-found, get_session-missing}
use mouseion.Exam.Ground.{Services, Settings, plan_probes}
use mouseion.Exam.Advance.{
  finalize_stored, ask_first, answer_explain, ask_next, answer_probe, answer_active, answer_session,
  advance_session,
}
use mouseion.Exam.Turns.{
  AdvanceResult, plain_turn, probe_as_turn, pushback_as_turn, session_is_expired,
}
use mouseion.Exam.Advance.Reads.{read-then, plan_probes-Reads}
use mouseion.Exam.Advance.Step.{first, again, next, Step, failed, settled}
use mouseion.Exam.Advance.Writes.{finalize-Step, ask-Step}

module _ (services : Services) (settings : Settings) (now : ℕ) (s : Sessions) (r : SessionRow)
    (found : find_session r.id s.rows ≡ some r) where
  answer_explain-Step :
      (response : Text) (transcript : List Turn)
      → r.phase ≡ explain
      → suc r.turn_count < max 1 settings.test_max_turns
      → Step services settings now s r (
          answer_explain services settings now
            (session_from_row r)
            response
            transcript
            (suc r.turn_count)
            s)
  unfolding answer_explain
  answer_explain-Step response transcript ph few =
      elim (read-then (plan_probes services settings (session_from_row r) response)
        (λ probes.
          ask_first services settings now (session_from_row r) transcript (suc r.turn_count) probes)
        (plan_probes-Reads services settings (session_from_row r) response) s) [
          | inl (e, eq) ↦ failed e (λ x. cc) eq
          | inr (probes, got, eq) ↦ rw eq (asks_first probes)
        ]
    where
      asks_first :
          (probes : List ExamProbe)
          → Step services settings now s r (
              ask_first services settings now
                (session_from_row r)
                transcript
                (suc r.turn_count)
                probes
                s)
      asks_first [] = failed no_probe (λ x. cc) refl
      asks_first (p ∷ ps) =
          ask-Step services settings now s r found transcript (probe_as_turn p now)
            (record { probes = p ∷ ps; probe_index = 0; pushback_used = false }) (first p ps now ph)
            few

  ask_next-Step :
      (transcript : List Turn)
      → r.phase ≡ probe
      → suc r.turn_count < max 1 settings.test_max_turns
      → Step services settings now s r (
          ask_next services settings now
            (session_from_row r)
            transcript
            (suc r.turn_count)
            (record (from_raw r.state) {
              probe_index = suc (from_raw r.state).probe_index;
              pushback_used = false;
            })
            (get_elem? (from_raw r.state).probes (suc (from_raw r.state).probe_index))
            s)
  ask_next-Step transcript ph few =
      elim (Option-cases
        (get_elem? (from_raw r.state).probes (suc (from_raw r.state).probe_index))) [
          | inl over ↦ rw over (
              finalize-Step services settings now s r found transcript (suc r.turn_count) (λ e. cc)
                (inr refl))
          | inr (p, there) ↦ rw there (
              ask-Step services settings now s r found transcript (probe_as_turn p now)
                (record (from_raw r.state) {
                  probe_index = suc (from_raw r.state).probe_index;
                  pushback_used = false;
                })
                (next p now ph there) few)
        ]

  answer_probe-Step :
      (response : Text) (transcript : List Turn) (o : Option ExamProbe)
      → r.phase ≡ probe
      → get_elem? (from_raw r.state).probes (from_raw r.state).probe_index ≡ o
      → suc r.turn_count < max 1 settings.test_max_turns
      → Step services settings now s r (
          answer_probe services settings now
            (session_from_row r)
            response
            transcript
            (suc r.turn_count)
            o
            s)
  answer_probe-Step response transcript none ph here few =
      finalize-Step services settings now s r found transcript (suc r.turn_count) (λ e. cc)
        (inr refl)
  answer_probe-Step response transcript (some p) ph here few =
      elim (Bool-cases (
        answer_is_vague services.casefold services.is_word response
        && not (from_raw r.state).pushback_used)) [
          | inl vague ↦ rw vague (
              ask-Step services settings now s r found transcript (pushback_as_turn p now)
                (record (from_raw r.state) { pushback_used = true })
                (again p now ph here (ground arith)) few)
          | inr moves ↦ rw moves (ask_next-Step transcript ph few)
        ]

  answer_active-Step :
      (response : Text)
      → r.phase ≢ verdict
      → Step services settings now s r
          (answer_active services settings now (session_from_row r) response s)
  unfolding answer_active
  answer_active-Step response active =
      elim (Bool-cases
        (user_is_done response || leb (max 1 settings.test_max_turns) (suc r.turn_count))) [
          | inl last ↦
              rw last (
                finalize-Step services settings now s r found _ (suc r.turn_count) active
                  (inr refl))
          | inr more ↦ rw more (by_phase r.phase refl (ground arith))
        ]
    where
      transcript : List Turn
      transcript = r.transcript ++ plain_turn user answer_turn response now ∷ []

      by_phase :
          (ph : ExamPhase)
          → r.phase ≡ ph
          → suc r.turn_count < max 1 settings.test_max_turns
          → Step services settings now s r (
              elim ph as (λ _. ExamDb AdvanceResult) [
                | explain ↦
                    answer_explain services settings now
                      (session_from_row r)
                      response
                      transcript
                      (suc r.turn_count)
                | other ↦
                    answer_probe services settings now
                      (session_from_row r)
                      response
                      transcript
                      (suc r.turn_count)
                      (get_elem? (from_raw r.state).probes (from_raw r.state).probe_index)
              ]
                s)
      by_phase explain ph few = answer_explain-Step response transcript ph few
      by_phase probe ph few = answer_probe-Step response transcript _ ph refl few
      by_phase verdict ph few = absurd (active ph)

  unless_expired :
      (answer : Text)
      → r.phase ≢ verdict
      → Step services settings now s r (
          (if session_is_expired (session_from_row r) now
              then finalize_stored services settings now (session_from_row r)
              else answer_active services settings now (session_from_row r) (strip answer))
            s)
  unfolding finalize_stored
  unless_expired answer active = elim (Bool-cases (session_is_expired (session_from_row r) now)) [
    | inl late ↦
        rw late (
          finalize-Step services settings now s r found r.transcript r.turn_count active (inl refl))
    | inr early ↦ rw early (answer_active-Step (strip answer) active)
  ]

  answer_session-Step :
      (answer : Text)
      → Step services settings now s r
          (answer_session services settings now answer (session_from_row r) s)
  answer_session-Step answer = by_phase r.phase refl
    where
      by_phase :
          (ph : ExamPhase)
          → r.phase ≡ ph
          → Step services settings now s r (
              elim ph as (λ _. ExamDb AdvanceResult) [
                | verdict ↦ pure (record {
                  session = session_from_row r;
                  assistant_text = [];
                  verdict = (session_from_row r).verdict;
                })
                | other ↦
                    if session_is_expired (session_from_row r) now
                    then finalize_stored services settings now (session_from_row r)
                    else answer_active services settings now (session_from_row r) (strip answer)
              ]
                s)
      by_phase verdict ph = settled ph refl
      by_phase explain ph = unless_expired answer (λ e. cc)
      by_phase probe ph = unless_expired answer (λ e. cc)

module _ (services : Services) (settings : Settings) (now : ℕ) (s : Sessions) (k : ℕ)
    (answer : Text) where
  pub advance_session-Step :
      (r : SessionRow)
      → find_session k s.rows ≡ some r
      → Step services settings now s r (advance_session services settings now k answer s)
  unfolding advance_session
  advance_session-Step r found =
      rw
        (bind_ok (get_session k) (answer_session services settings now answer) s s
          (session_from_row r) (get_session-found k s r found))
        (answer_session-Step services settings now s r
          (ap (λ j. find_session j s.rows) (find_session-id k s.rows r found) ∙ found) answer)

  pub advance_session-missing :
      find_session k s.rows ≡ none
      → advance_session services settings now k answer s ≡ (err (session_not_found k), s)
  unfolding advance_session
  advance_session-missing gone =
      bind_err (get_session k) (answer_session services settings now answer) s s
        (session_not_found k) (get_session-missing k s gone)
