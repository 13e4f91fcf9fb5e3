-- ===== src/Exam/Advance/Progress.antt =====
-- What an answer does to the stored sessions, and that an exam ends.
use mouseion.Prelude.{
  ℕ, suc, ◌+◌, ◌≤◌, ◌<◌, ◌≡◌, ◌≢◌, refl, sym, ap, subst, ◌∙◌, ◌⊎◌, inl, inr, some, List, [], ◌∷◌,
  arith, length, max, Option-cases,
}
use mouseion.Text.{Text}
use mouseion.Effect.{Result, ok, err, pure, ◌>>=◌, Result-cases, ok_inj, bind_ok, bind_err}
use mouseion.Exam.Session.{
  verdict, Turn, ExamState, SessionRow, Sessions, ExamFault, ExamDb, find_session, change_session,
  session_from_row,
}
use mouseion.Exam.Session.Rows.{find_session-id, find_session-change, find_session-change_other}
use mouseion.Exam.Ground.{Services, Settings}
use mouseion.Exam.Advance.{completed_row, advance_session}
use mouseion.Exam.Turns.{AdvanceResult}
use mouseion.Exam.Advance.Step.{
  Asking, first, again, next, failed, settled, ended, asked, asked_row,
}
use mouseion.Exam.Advance.Cases.{advance_session-Step, advance_session-missing}

module _ (services : Services) (settings : Settings) (now : ℕ) (k : ℕ) (answer : Text)
    (s : Sessions) where
  -- An answer that raises, whether in the services, the model or the store, leaves every session as
  -- it was.
  pub advance_session-atomic :
      (e : ExamFault)
      → (advance_session services settings now k answer s).0 ≡ err e
      → (advance_session services settings now k answer s).1 ≡ s
  advance_session-atomic e h = elim (Option-cases (find_session k s.rows)) [
    | inl gone ↦ ap (λ p. p.1) (advance_session-missing services settings now s k answer gone)
    | inr (r, found) ↦ elim (advance_session-Step services settings now s k answer r found) [
      | failed x active eq ↦ ap (λ p. p.1) eq
      | settled ph eq ↦ ap (λ p. p.1) eq
      | ended ts n v active count eq ↦ cc (h, ap (λ p. p.0) eq)
      | asked ts turn state how few eq ↦ cc (h, ap (λ p. p.0) eq)
    ]
  ]

  -- An answer changes no other session than the one it is given to.
  pub advance_session-frame :
      (j : ℕ)
      → j ≢ k
      → find_session j (advance_session services settings now k answer s).1.rows
        ≡ find_session j s.rows
  advance_session-frame j ne = elim (Option-cases (find_session k s.rows)) [
    | inl gone ↦
        ap (λ p. find_session j p.1.rows)
          (advance_session-missing services settings now s k answer gone)
    | inr (r, found) ↦
        let other : j ≢ r.id = λ e. ne (e ∙ find_session-id k s.rows r found) in
        elim (advance_session-Step services settings now s k answer r found) [
          | failed x active eq ↦ ap (λ p. find_session j p.1.rows) eq
          | settled ph eq ↦ ap (λ p. find_session j p.1.rows) eq
          | ended ts n v active count eq ↦
              ap (λ p. find_session j p.1.rows) eq
              ∙ find_session-change_other j r.id (completed_row services settings now ts n v) s.rows
                  (λ x. refl) other
          | asked ts turn state how few eq ↦
              ap (λ p. find_session j p.1.rows) eq
              ∙ find_session-change_other j r.id (asked_row services settings now s r ts turn state)
                  s.rows (λ x. refl) other
        ]
  ]

  changed_row :
      (f : SessionRow → SessionRow)
      → ((x : SessionRow) → (f x).id ≡ x.id)
      → (r : SessionRow) → find_session k s.rows ≡ some r
      → find_session k (change_session r.id f s.rows) ≡ some (f r)
  changed_row f same r found =
      ap (λ j. find_session k (change_session j f s.rows)) (find_session-id k s.rows r found)
      ∙ find_session-change k f s.rows r same found

  session_is :
      {o : Result ExamFault AdvanceResult} {a res : AdvanceResult}
      → o ≡ ok a
      → o ≡ ok res
      → res.session ≡ a.session
  session_is {a = a} {res = res} is_a is_res =
      ap (λ x. x.session) (ok_inj res a (sym is_res ∙ is_a))

  -- An answer that returns leaves the session over, or with one more turn and that below the limit;
  -- the session it returns is the stored one.
  pub advance_session-bounded :
      (r : SessionRow) (res : AdvanceResult)
      → find_session k s.rows ≡ some r
      → (advance_session services settings now k answer s).0 ≡ ok res
      → (r' : SessionRow) × (find_session k
            (advance_session services settings now k answer s).1.rows
          ≡ some r')
        × (res.session ≡ session_from_row r')
        × ((r'.phase ≡ verdict)
            ⊎ ((r'.turn_count ≡ suc r.turn_count)
                × (suc r.turn_count < max 1 settings.test_max_turns)))
  advance_session-bounded r res found h =
      elim (advance_session-Step services settings now s k answer r found) [
        | failed x active eq ↦ cc (h, ap (λ p. p.0) eq)
        | settled ph eq ↦ (
          r,
          ap (λ p. find_session k p.1.rows) eq ∙ found,
          session_is (ap (λ p. p.0) eq) h,
          inl ph,
        )
        | ended ts n v active count eq ↦ (
          completed_row services settings now ts n v r,
          ap (λ p. find_session k p.1.rows) eq
              ∙ changed_row (completed_row services settings now ts n v) (λ x. refl) r found,
          session_is (ap (λ p. p.0) eq) h,
          inl refl,
        )
        | asked ts turn state how few eq ↦ (
          asked_row services settings now s r ts turn state r,
          ap (λ p. find_session k p.1.rows) eq
              ∙ changed_row (asked_row services settings now s r ts turn state) (λ x. refl) r found,
          session_is (ap (λ p. p.0) eq) h,
          inr (refl, few),
        )
      ]

Asking-active :
    {r : SessionRow} {turn : Turn} {state : ExamState} → Asking r turn state → r.phase ≢ verdict
Asking-active (first p ps now ph) = λ e. cc
Asking-active (again p now ph here fresh) = λ e. cc
Asking-active (next p now ph here) = λ e. cc

-- Answers in the order they come, each with its time.
abbrev pub advance_all : Services → Settings → ℕ → List (ℕ × Text) → ExamDb Unit
advance_all services settings k [] = pure tt
advance_all services settings k ((now, answer) ∷ rest) =
    advance_session services settings now k answer >>= λ _. advance_all services settings k rest

module _ (services : Services) (settings : Settings) (k : ℕ) where
  -- the session is over
  abbrev pub IsOver : Sessions → Type 0
  IsOver s = (r : SessionRow) × (find_session k s.rows ≡ some r) × (r.phase ≡ verdict)

  -- An answer to a session that is over changes nothing, and returns the session as it is stored.
  advance_session-over :
      (s : Sessions)
      → IsOver s
      → (now : ℕ) (answer : Text)
      → ((advance_session services settings now k answer s).1 ≡ s)
        × ((res : AdvanceResult) × ((advance_session services settings now k answer s).0 ≡ ok res)
            × (res.session.phase ≡ verdict))
  advance_session-over s (r, found, over) now answer =
      elim (advance_session-Step services settings now s k answer r found) [
        | failed x active eq ↦ absurd (active over)
        | settled ph eq ↦ (ap (λ p. p.1) eq, (_, ap (λ p. p.0) eq, ph))
        | ended ts n v active count eq ↦ absurd (active over)
        | asked ts turn state how few eq ↦ absurd (Asking-active how over)
      ]

  -- over, or below the limit with enough answers to come
  abbrev Enough : SessionRow → ℕ → Type 0
  Enough r n =
      (r.phase ≡ verdict)
      ⊎ ((r.turn_count < max 1 settings.test_max_turns)
          × (max 1 settings.test_max_turns ≤ r.turn_count + n))

  row_after :
      (s : Sessions) (r : SessionRow) (now : ℕ) (answer : Text) (res : AdvanceResult)
      → find_session k s.rows ≡ some r
      → (n : ℕ) → Enough r (suc n)
      → (advance_session services settings now k answer s).0 ≡ ok res
      → (r' : SessionRow) × (find_session k
            (advance_session services settings now k answer s).1.rows
          ≡ some r')
        × Enough r' n
  row_after s r now answer res found n (inl over) fine = (
    r,
    ap (λ x. find_session k x.rows) (advance_session-over s (r, found, over) now answer).0 ∙ found,
    inl over,
  )
  row_after s r now answer res found n (inr (below, reached)) fine =
      let (r', found', same, what) =
        advance_session-bounded services settings now k answer s r res found fine in
      elim what [
        | inl over ↦ (r', found', inl over)
        | inr (count, few) ↦ (r', found', inr (omega arith, omega arith))
      ]

  advance_all-IsOver :
      (answers : List (ℕ × Text)) (s : Sessions) (r : SessionRow)
      → find_session k s.rows ≡ some r
      → Enough r (length answers)
      → (advance_all services settings k answers s).0 ≡ ok tt
      → IsOver (advance_all services settings k answers s).1
  advance_all-IsOver [] s r found (inl over) h = (r, found, over)
  advance_all-IsOver [] s r found (inr (below, reached)) h = absurd (omega arith)
  advance_all-IsOver ((now, answer) ∷ rest) s r found enough h =
      let step : Result ExamFault AdvanceResult × Sessions =
        advance_session services settings now k answer s in
      elim (Result-cases step.0) [
        | inr (e, failing) ↦ cc (
          h,
          ap (λ p. p.0)
              (bind_err (advance_session services settings now k answer)
                (λ _. advance_all services settings k rest) s step.1 e
                (ap (λ x. (x, step.1)) failing)),
        )
        | inl (res, fine) ↦
            let after : advance_all services settings k ((now, answer) ∷ rest) s
                ≡ advance_all services settings k rest step.1 =
              bind_ok (advance_session services settings now k answer)
                (λ _. advance_all services settings k rest) s step.1 res
                (ap (λ x. (x, step.1)) fine) in
            let (r', found', enough') =
              row_after s r now answer res found (length rest) enough fine in
            subst (λ p. IsOver p.1) (sym after)
              (advance_all-IsOver rest step.1 r' found' enough' (ap (λ p. p.0) (sym after) ∙ h))
      ]

  -- An exam ends: a session below the limit on turns is over once as many answers have been taken as
  -- the limit leaves, if each of them returned.
  pub advance_all-ends :
      (answers : List (ℕ × Text)) (s : Sessions) (r : SessionRow)
      → find_session k s.rows ≡ some r
      → r.turn_count < max 1 settings.test_max_turns
      → max 1 settings.test_max_turns ≤ r.turn_count + length answers
      → (advance_all services settings k answers s).0 ≡ ok tt
      → IsOver (advance_all services settings k answers s).1
  advance_all-ends answers s r found below reached =
      advance_all-IsOver answers s r found (inr (below, reached))
