-- ===== src/Jobs/Held.antt =====
-- What the updates of a job keep: the row is there, and a step that is done stays done.
use mouseion.Prelude.{
  ℕ, ◌≡◌, refl, ap, ◌∙◌, inl, inr, Bool, true, Option, some, List, arith, is_some, Option-cases,
}
use mouseion.Text.{Text}
use mouseion.Jobs.{
  JobState, Step, JobRow, get_job, change_job, set_state, with_state, attach, attached, bumped,
  bump_attempts, get_progress, has_step, is_step_done, mark_step_done, with_progress, marked,
}
use mouseion.Jobs.Resume.{
  get_job-changed, kept_progress, set_state-is_step_done, mark_step_done-is_step_done,
}

module _ (k : Text) where
  abbrev pub Held : List JobRow → Type 0
  Held js = is_some (get_job k js) ≡ true

  pub Held-row : (js : List JobRow) → Held js → (row : JobRow) × (get_job k js ≡ some row)
  Held-row js h = elim (Option-cases (get_job k js)) [ inl e ↦ cc (h, e) | inr found ↦ found ]

  Held-change :
      (f : JobRow → JobRow)
      → ((x : JobRow) → (f x).id ≡ x.id)
      → (js : List JobRow) → Held js
      → Held (change_job k f js)
  Held-change f same js h =
      let (row, found) = Held-row js h in rw (get_job-changed k f same js row found) refl

  pub Held-set_state :
      (state : JobState) (error : Option Text) (js : List JobRow)
      → Held js
      → Held (set_state k state error js).1
  unfolding set_state
  Held-set_state state error = Held-change (with_state state error) (λ x. refl)

  pub Held-attach :
      (paper : Option ℕ) (sha : Option Text) (duplicate : Option Bool) (js : List JobRow)
      → Held js
      → Held (attach k paper sha duplicate js).1
  unfolding attach
  Held-attach paper sha duplicate = Held-change (attached paper sha duplicate) (λ x. refl)

  pub Held-mark_step_done :
      (t : Step) (artifacts : List (Text × Option Text)) (js : List JobRow)
      → Held js
      → Held (mark_step_done k t artifacts js).1
  unfolding mark_step_done
  Held-mark_step_done t artifacts js =
      Held-change (with_progress (marked t artifacts (get_progress k js))) (λ x. refl) js

  pub Held-bump_attempts : (js : List JobRow) → Held js → Held (bump_attempts k js).1
  unfolding bump_attempts
  Held-bump_attempts = Held-change bumped (λ x. refl)

  -- The state that is set is the state of the row, and so is the error.
  pub set_state-row :
      (state : JobState) (error : Option Text) (js : List JobRow)
      → Held js
      → (row : JobRow) × (get_job k (set_state k state error js).1 ≡ some row)
        × (row.state ≡ state)
        × (row.error ≡ error)
  unfolding set_state
  set_state-row state error js h =
      let (row, found) = Held-row js h in
      (
        with_state state error row,
        get_job-changed k (with_state state error) (λ x. refl) js row found,
        refl,
        refl,
      )

  module _ (t : Step) where
    abbrev pub Done : List JobRow → Type 0
    Done js = is_step_done k t js ≡ true

    pub Done-Held : (js : List JobRow) → Done js → Held js
    unfolding is_step_done get_progress
    Done-Held js h = elim (Option-cases (get_job k js)) [
      | inl e ↦ cc (rw (e, is_step_done) at h)
      | inr (row, e) ↦ rw e refl
    ]

    pub Done-set_state :
        (state : JobState) (error : Option Text) (js : List JobRow)
        → Done js
        → Done (set_state k state error js).1
    Done-set_state state error js h = set_state-is_step_done k state error js k t ∙ h

    pub Done-attach :
        (paper : Option ℕ) (sha : Option Text) (duplicate : Option Bool) (js : List JobRow)
        → Done js
        → Done (attach k paper sha duplicate js).1
    unfolding is_step_done attach
    Done-attach paper sha duplicate js h =
        ap (λ p. has_step t p.steps)
          (kept_progress k (attached paper sha duplicate) (λ x. refl) (λ x. refl) k js)
        ∙ h

    pub Done-bump_attempts : (js : List JobRow) → Done js → Done (bump_attempts k js).1
    unfolding is_step_done bump_attempts
    Done-bump_attempts js h =
        ap (λ p. has_step t p.steps) (kept_progress k bumped (λ x. refl) (λ x. refl) k js) ∙ h

    pub Done-mark_step_done :
        (u : Step) (artifacts : List (Text × Option Text)) (js : List JobRow)
        → Done js
        → Done (mark_step_done k u artifacts js).1
    Done-mark_step_done u artifacts js h =
        let (row, found) = Held-row js (Done-Held js h) in
        mark_step_done-is_step_done k u artifacts js row found k t ∙ ground (arith, h)
