-- ===== src/Jobs.antt =====
-- backend/src/mouseion/services/jobs.py: the rows of `ingest_jobs` (migration 0001), the states of a
-- job and its progress, which names the steps that are done and the artifacts they left. A JSON
-- column is the value that its text denotes; a payload is its JSON text, and so is an artifact that is
-- not a string.
pub mod Resume
pub mod Held
mod Tests
use mouseion.Prelude.{
  ℕ, suc, Bool, true, false, not, ◌||◌, Option, none, some, List, [], ◌∷◌, ◌++◌, any, take, drop,
  if◌then◌else◌, is_some,
}
use mouseion.Text.{Text, text_eq}
use mouseion.Effect.{Exec, Result, ok, err, pure, gets, ◌>>=◌, ◌>>◌}

pub data JobState : Type 0 where
  queued downloading extracting indexing tagging embedding done failed : JobState

pub data JobKind : Type 0 where
  upload url : JobKind

pub data Step : Type 0 where
  download extract index tag embed : Step

-- `Step(step).value == name`
abbrev pub same_step : Step → Step → Bool
same_step download download = true
same_step extract extract = true
same_step index index = true
same_step tag tag = true
same_step embed embed = true
same_step s t = false

abbrev pub is_terminal : JobState → Bool
is_terminal done = true
is_terminal failed = true
is_terminal other = false

pub record JobProgress : Type 0 where
  pub steps : List Step
  pub artifacts : List (Text × Text)

-- what the text `{}` is read as
abbrev pub no_progress : JobProgress
no_progress = record { steps = []; artifacts = [] }

-- The list of rows stands in the order of their insertion.
pub record JobRow : Type 0 where
  pub id : Text
  pub kind : JobKind
  pub payload : Text
  pub state : JobState
  pub error : Option Text
  pub paper_id : Option ℕ
  pub sha256 : Option Text
  pub duplicate : Bool
  pub attempts : ℕ
  pub progress : JobProgress

-- a second row with the id of another
pub data JobFault : Type 0 where
  job_exists : JobFault

abbrev pub JobDb : Type 0 → Type 0
JobDb = Exec (List JobRow) JobFault

-- SELECT * FROM ingest_jobs WHERE id = ?
abbrev pub get_job : Text → List JobRow → Option JobRow
get_job k [] = none
get_job k (r ∷ rs) = if text_eq r.id k then some r else get_job k rs

-- UPDATE ingest_jobs SET ... WHERE id = ?; `updated_at` is left out.
abbrev pub change_job : Text → (JobRow → JobRow) → List JobRow → List JobRow
change_job k f [] = []
change_job k f (r ∷ rs) = (if text_eq r.id k then f r else r) ∷ change_job k f rs

abbrev pub update_job : Text → (JobRow → JobRow) → JobDb Unit
update_job k f s = (ok tt, change_job k f s)

abbrev pub new_job : Text → JobKind → Text → JobRow
new_job k kind payload = record {
  id = k;
  kind = kind;
  payload = payload;
  state = queued;
  error = none;
  paper_id = none;
  sha256 = none;
  duplicate = false;
  attempts = 0;
  progress = no_progress;
}

-- `create_job`, where `uuid4` gave the id
unfoldable pub create_job : Text → JobKind → Text → JobDb Text
create_job k kind payload s =
    if is_some (get_job k s) then (err job_exists, s) else (ok k, s ++ new_job k kind payload ∷ [])

abbrev pub with_state : JobState → Option Text → JobRow → JobRow
with_state state error row = record row { state = state; error = error }

-- An error that is not given is cleared.
unfoldable pub set_state : Text → JobState → Option Text → JobDb Unit
set_state k state error = update_job k (with_state state error)

-- the value where one is given, the column where none is
abbrev pub or_column {ℓ} : {A : Type ℓ} → Option A → A → A
or_column none column = column
or_column (some value) column = value

abbrev pub some_or_column {ℓ} : {A : Type ℓ} → Option A → Option A → Option A
some_or_column none column = column
some_or_column (some value) column = some value

abbrev pub attached : Option ℕ → Option Text → Option Bool → JobRow → JobRow
attached paper sha256 duplicate row = record row {
  paper_id = some_or_column paper row.paper_id;
  sha256 = some_or_column sha256 row.sha256;
  duplicate = or_column duplicate row.duplicate;
}

-- `attach`; with nothing to set it sends no statement, which changes no column either.
unfoldable pub attach : Text → Option ℕ → Option Text → Option Bool → JobDb Unit
attach k paper sha256 duplicate = update_job k (attached paper sha256 duplicate)

abbrev pub bumped : JobRow → JobRow
bumped row = record row { attempts = suc row.attempts }

abbrev pub attempts_or_0 : Option JobRow → ℕ
attempts_or_0 none = 0
attempts_or_0 (some row) = row.attempts

unfoldable pub bump_attempts : Text → JobDb ℕ
bump_attempts k = do update_job k bumped; gets (λ s. attempts_or_0 (get_job k s))

abbrev pub progress_or_none : Option JobRow → JobProgress
progress_or_none none = no_progress
progress_or_none (some row) = row.progress

unfoldable pub get_progress : Text → List JobRow → JobProgress
get_progress k s = progress_or_none (get_job k s)

-- `name in steps`
abbrev pub has_step : Step → List Step → Bool
has_step t steps = any (same_step t) steps

unfoldable pub is_step_done : Text → Step → List JobRow → Bool
unfolding get_progress
is_step_done k t s = has_step t (get_progress k s).steps

-- `artifacts[name] = value`
abbrev pub put : Text → Text → List (Text × Text) → List (Text × Text)
put name value [] = (name, value) ∷ []
put name value ((n, v) ∷ rest) =
    if text_eq n name then (n, value) ∷ rest else (n, v) ∷ put name value rest

-- `artifacts.update(...)` with the values that are not None
abbrev pub put_all : List (Text × Option Text) → List (Text × Text) → List (Text × Text)
put_all [] artifacts = artifacts
put_all ((name, none) ∷ more) artifacts = put_all more artifacts
put_all ((name, some value) ∷ more) artifacts = put_all more (put name value artifacts)

abbrev pub marked : Step → List (Text × Option Text) → JobProgress → JobProgress
marked t artifacts p = record {
  steps = if has_step t p.steps then p.steps else p.steps ++ t ∷ [];
  artifacts = put_all artifacts p.artifacts;
}

abbrev pub with_progress : JobProgress → JobRow → JobRow
with_progress p row = record row { progress = p }

unfoldable pub mark_step_done : Text → Step → List (Text × Option Text) → JobDb JobProgress
unfolding get_progress
mark_step_done k t artifacts = do
  progress ← gets (get_progress k)
  update_job k (with_progress (marked t artifacts progress))
  pure (marked t artifacts progress)

unfoldable pub reset_progress : Text → JobDb Unit
reset_progress k = update_job k (with_progress no_progress)
