-- ===== src/Ingest/Stuck.antt =====
-- What is left of a run that was cancelled: `retry_job` does not take the job up again.
use mouseion.Prelude.{ℕ, ◌≡◌, true, Option}
use mouseion.Text.{Text}
use mouseion.Effect.{err}
use mouseion.Jobs.{JobState}
use mouseion.Ingest.{Library}
use mouseion.Ingest.Waiting.{waits, Waiting}
use mouseion.Ingest.Requeue.{not_failed, retry_job}

-- The retry is refused with the state of the job, and nothing is written.
abbrev pub Refused : (Text → ℕ → Option Text) → Text → Library → Type 0
Refused enqueue k s =
    (state : JobState) × (waits state ≡ true)
    × (retry_job enqueue k s.jobs ≡ (err (not_failed state), s.jobs))
