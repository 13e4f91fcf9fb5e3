-- ===== src/Ingest/Requeue.antt =====
-- backend/src/mouseion/api/jobs.py: `retry_job`, which puts a failed job back in the queue. The queue
-- is a parameter: the problem, if any, with which it refuses a job and an attempt.
use mouseion.Prelude.{ℕ, Option, none, some, List, ◌++◌}
use mouseion.Text.{Text, codes}
use mouseion.Effect.{Exec, raise, or_raise, ◌>>◌}
use mouseion.Jobs.{JobState, queued, failed, JobRow, JobFault, get_job, set_state}
use mouseion.Ingest.{relabel}

-- the HTTPExceptions with the codes 404, 409 and 503, and what the table raises
pub data RetryFault : Type 0 where
  not_found : RetryFault
  not_failed : JobState → RetryFault
  queue_unavailable : RetryFault
  assertion : RetryFault
  table : JobFault → RetryFault

abbrev pub Retrying : Type 0 → Type 0
Retrying = Exec (List JobRow) RetryFault

-- `set_state`, which raises nothing of its own
abbrev pub retry_state : Text → JobState → Option Text → Retrying Unit
retry_state k state error s = let (r, s') = set_state k state error s in (relabel table r, s')

-- `refreshed`
abbrev pub refreshed : Text → Retrying JobRow
refreshed k s = or_raise (get_job k s) assertion s

abbrev pub enqueued : Text → Option Text → Retrying JobRow
enqueued k none = refreshed k
enqueued k (some problem) = do
  retry_state k failed (some (codes "could not enqueue: " ++ problem))
  raise queue_unavailable

module _ (enqueue : Text → ℕ → Option Text) (k : Text) where
  abbrev pub requeue : JobRow → Retrying JobRow
  requeue row = do retry_state k queued none; enqueued k (enqueue k row.attempts)

  abbrev pub retry_in : JobState → JobRow → Retrying JobRow
  retry_in failed row = requeue row
  retry_in other row = raise (not_failed other)

  abbrev pub retry_found : Option JobRow → Retrying JobRow
  retry_found none = raise not_found
  retry_found (some row) = retry_in row.state row

  unfoldable pub retry_job : Retrying JobRow
  retry_job s = retry_found (get_job k s) s
