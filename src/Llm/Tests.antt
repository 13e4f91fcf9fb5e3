-- ===== src/Llm/Tests.antt =====
-- A model that answers badly once and then well.
use mouseion.Prelude.{ℕ, ◌≡◌, refl, none, List, [], ◌∷◌, if◌then◌else◌}
use mouseion.Text.{Text, codes, text_eq}
use mouseion.Effect.{Result, ok, err}
use mouseion.Llm.{LlmFault, Retry, complete_json}
use mouseion.Llm.Complete.{Answered, complete_json-validated}

abbrev reply : List Retry → Result LlmFault Text
reply [] = ok (codes "seven")
reply (r ∷ rs) = ok (codes "7")

abbrev parse : Text → Result Text ℕ
parse t = if text_eq t (codes "7") then ok 7 else err (codes "not a number")

second_answer : complete_json reply parse none 2 ≡ ok 7
unfolding complete_json mouseion.Llm.attempt_from
second_answer = refl

complete_json-validated_example : Answered reply parse 2 7
complete_json-validated_example = complete_json-validated reply parse none 2 7 second_answer
