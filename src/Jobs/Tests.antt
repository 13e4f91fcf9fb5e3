-- ===== src/Jobs/Tests.antt =====
-- A job that failed while it was tagged, and one beside it.
use mouseion.Prelude.{◌≡◌, refl, ◌&&◌, ◌||◌, some, List, [], ◌∷◌}
use mouseion.Text.{codes, text_eq}
use mouseion.Jobs.{
  JobRow, JobState, Step, JobKind, new_job, same_step, is_step_done, mark_step_done,
}
use mouseion.Jobs.Resume.{mark_step_done-is_step_done}

abbrev stopped : JobRow
stopped = record (new_job (codes "a1") JobKind.url (codes "{}")) {
  state = JobState.failed;
  error = some (codes "no answer");
  progress = record {
    steps = Step.download ∷ Step.extract ∷ [];
    artifacts = (codes "pages", codes "9") ∷ [];
  };
}

abbrev jobs : List JobRow
jobs = new_job (codes "b2") JobKind.upload (codes "{}") ∷ stopped ∷ []

mark_step_done-is_step_done_example :
    is_step_done
      (codes "a1")
      Step.index
      (mark_step_done (codes "a1") Step.index ((codes "nodes", some (codes "4")) ∷ []) jobs).1
    ≡ (is_step_done (codes "a1") Step.index jobs
        || (text_eq (codes "a1") (codes "a1") && same_step Step.index Step.index))
mark_step_done-is_step_done_example =
    mark_step_done-is_step_done (codes "a1") Step.index ((codes "nodes", some (codes "4")) ∷ [])
      jobs stopped refl (codes "a1") Step.index
