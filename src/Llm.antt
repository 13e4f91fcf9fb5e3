-- ===== src/Llm.antt =====
-- backend/src/mouseion/services/llm.py: `complete_json`, which asks the model again with the error
-- of the last answer until an answer validates. The transport is a parameter: what `_post_result`
-- returns for a request and the turns that were appended to it.
pub mod Complete
mod Tests
use mouseion.Prelude.{
  ℕ, zero, suc, ◌+◌, Option, none, some, List, [], ◌∷◌, ◌++◌, is_empty, ◌==◌, if◌then◌else◌,
}
use mouseion.Text.{Text}
use mouseion.Effect.{Result, ok, err}

-- LLMError, LLMValidationError, and the CancelledError of the task that awaits an answer
pub data LlmFault : Type 0 where
  llm_error llm_cancelled : LlmFault
  not_validated : ℕ → LlmFault

-- an answer that did not validate, and the validation error that was sent back
pub record Retry : Type 0 where
  pub content : Text
  pub problem : Text

-- `max_attempts or self.settings.llm_max_attempts`
abbrev pub attempts_of : Option ℕ → ℕ → ℕ
attempts_of none default_attempts = default_attempts
attempts_of (some n) default_attempts = if n == 0 then default_attempts else n

-- `post` answers the appended turns with a text, or raises; `validate` is `model_validate_json`.
module _ {A : Type 0} (post : List Retry → Result LlmFault Text)
    (validate : Text → Result Text A) where
  -- what follows one answer, where `left` attempts remain after it
  abbrev pub judge :
      (List Retry → Result LlmFault A) → List Retry → Text → Result Text A → Result LlmFault A
  judge again retries content (ok a) = ok a
  judge again retries content (err problem) =
      again (retries ++ record { content = content; problem = problem } ∷ [])

  -- The code appends the turns only if another attempt follows; where none does, none is read here.
  unfoldable pub attempt_from : ℕ → ℕ → List Retry → Result LlmFault A
  attempt_from total zero retries = err (not_validated total)
  attempt_from total (suc left) retries = elim (post retries) [
    | err e ↦ err e
    | ok content ↦ judge (attempt_from total left) retries content (validate content)
  ]

  unfoldable pub complete_json : Option ℕ → ℕ → Result LlmFault A
  complete_json max_attempts default_attempts =
      let attempts = attempts_of max_attempts default_attempts in attempt_from attempts attempts []
