-- ===== src/Jobs/Resume.antt =====
-- What a retry can rely on: the steps of a job that are done stay done, and nothing else is.
use mouseion.Prelude.{
  ◌≡◌, ◌≢◌, refl, ap, ◌∙◌, inl, inr, true, false, not, ◌&&◌, ◌||◌, Option, none, some, List, [],
  ◌∷◌, ◌++◌, arith, if◌then◌else◌, is_some, Bool-cases, Option-cases,
}
use mouseion.Text.{Text, text_eq, text_eq_iff, text_eq_refl}
use mouseion.Jobs.{
  JobState, Step, same_step, JobProgress, no_progress, JobRow, get_job, change_job, set_state,
  with_state, get_progress, progress_or_none, has_step, is_step_done, marked, with_progress,
  mark_step_done, reset_progress,
}

has_step-append :
    (u t : Step) (ts : List Step) → has_step u (ts ++ t ∷ []) ≡ (has_step u ts || same_step u t)
has_step-append u t [] = ground arith
has_step-append u t (x ∷ ts) = ground (arith, has_step-append u t ts)

same_step-eq : (u t : Step) → same_step u t ≡ true → u ≡ t
same_step-eq u t h = ground (arith, h)

has_step-marked :
    (u t : Step) (artifacts : List (Text × Option Text)) (p : JobProgress)
    → has_step u (marked t artifacts p).steps ≡ (has_step u p.steps || same_step u t)
has_step-marked u t artifacts p = elim (Bool-cases (has_step t p.steps)) [
  | inr fresh ↦ rw fresh (has_step-append u t p.steps)
  | inl there ↦ elim (Bool-cases (same_step u t)) [
    | inr other ↦ ground (arith, there, other)
    | inl same ↦ rw (same_step-eq u t same) (ground (arith, there))
  ]
]

module _ (k : Text) (f : JobRow → JobRow) (same : (x : JobRow) → (f x).id ≡ x.id) where
  pub get_job-changed :
      (rs : List JobRow) (r : JobRow)
      → get_job k rs ≡ some r
      → get_job k (change_job k f rs) ≡ some (f r)
  get_job-changed [] r h = cc
  get_job-changed (x ∷ rs) r h = ground (arith, h, same x, get_job-changed rs r)

  get_job-missing : (rs : List JobRow) → get_job k rs ≡ none → get_job k (change_job k f rs) ≡ none
  get_job-missing [] h = refl
  get_job-missing (x ∷ rs) h = ground (arith, h, same x, get_job-missing rs)

  get_job-other :
      (j : Text) (rs : List JobRow) → j ≢ k → get_job j (change_job k f rs) ≡ get_job j rs
  get_job-other j [] ne = refl
  get_job-other j (x ∷ rs) ne =
      ground (arith, ne, same x, get_job-other j rs ne, text_eq_iff x.id j, text_eq_iff x.id k)

  progress_other :
      (j : Text) (rs : List JobRow)
      → text_eq j k ≡ false
      → get_progress j (change_job k f rs) ≡ get_progress j rs
  unfolding get_progress
  progress_other j rs other =
      ap progress_or_none (get_job-other j rs (λ e. cc (other, text_eq_refl j, e)))

  -- An update that leaves the progress alone leaves every progress alone.
  pub kept_progress :
      ((x : JobRow) → (f x).progress ≡ x.progress)
      → (j : Text) (rs : List JobRow) → get_progress j (change_job k f rs) ≡ get_progress j rs
  unfolding get_progress
  kept_progress alone j rs = elim (Bool-cases (text_eq j k)) [
    | inr other ↦ progress_other j rs other
    | inl here ↦ rw ((text_eq_iff j k).0 here) (elim (Option-cases (get_job k rs)) [
      | inl gone ↦ rw (gone, get_job-missing rs gone) refl
      | inr (r, found) ↦ rw (found, get_job-changed rs r found) (alone r)
    ])
  ]

-- the progress that a job has after one is written for it
written_progress :
    (k : Text) (p : JobProgress) (s : List JobRow)
    → get_progress k (change_job k (with_progress p) s)
      ≡ (if is_some (get_job k s) then p else no_progress)
unfolding get_progress
written_progress k p s = elim (Option-cases (get_job k s)) [
  | inl gone ↦ rw (gone, get_job-missing k (with_progress p) (λ x. refl) s gone) refl
  | inr (r, found) ↦ rw (found, get_job-changed k (with_progress p) (λ x. refl) s r found) refl
]

-- A change of the state of a job leaves the steps of every job as they were.
pub set_state-is_step_done :
    (k : Text) (state : JobState) (error : Option Text) (s : List JobRow) (j : Text) (u : Step)
    → is_step_done j u (set_state k state error s).1 ≡ is_step_done j u s
unfolding is_step_done set_state
set_state-is_step_done k state error s j u =
    ap (λ p. has_step u p.steps)
      (kept_progress k (with_state state error) (λ x. refl) (λ x. refl) j s)

-- After a step of an existing job is marked, exactly the steps are done that were, and that one.
pub mark_step_done-is_step_done :
    (k : Text) (t : Step) (artifacts : List (Text × Option Text)) (s : List JobRow) (row : JobRow)
    → get_job k s ≡ some row
    → (j : Text) (u : Step)
    → is_step_done j u (mark_step_done k t artifacts s).1
      ≡ (is_step_done j u s || (text_eq j k && same_step u t))
unfolding is_step_done mark_step_done get_progress
mark_step_done-is_step_done k t artifacts s row found j u =
    let p : JobProgress = marked t artifacts (get_progress k s) in
    elim (Bool-cases (text_eq j k)) [
      | inr other ↦
          ap (λ q. has_step u q.steps) (progress_other k (with_progress p) (λ x. refl) j s other)
          ∙ ground (arith, other)
      | inl here ↦ rw ((text_eq_iff j k).0 here) (
          ap (λ q. has_step u q.steps) (written_progress k p s)
          ∙ (ap (λ o. has_step u (if is_some o then p else no_progress).steps) found
              ∙ (has_step-marked u t artifacts (get_progress k s)
                  ∙ ground (arith, text_eq_refl k))))
    ]

-- After a reset no step of the job is done, and those of the other jobs are as they were.
pub reset_progress-is_step_done :
    (k : Text) (s : List JobRow) (j : Text) (u : Step)
    → is_step_done j u (reset_progress k s).1 ≡ (not (text_eq j k) && is_step_done j u s)
unfolding is_step_done reset_progress
reset_progress-is_step_done k s j u = elim (Bool-cases (text_eq j k)) [
  | inr other ↦
      ap (λ q. has_step u q.steps)
        (progress_other k (with_progress no_progress) (λ x. refl) j s other)
      ∙ ground (arith, other)
  | inl here ↦ rw ((text_eq_iff j k).0 here) (
      ap (λ q. has_step u q.steps) (written_progress k no_progress s)
      ∙ ground (arith, text_eq_refl k))
]
