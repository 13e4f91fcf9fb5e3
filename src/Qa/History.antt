-- ===== src/Qa/History.antt =====
-- `_bound_history` and `synthesis_messages` of qa.py. A message without a key reads as one with an empty
-- text there.
use mouseion.Prelude.{
  ℕ, ◌-◌, Bool, not, ◌||◌, ◌&&◌, List, [], ◌∷◌, ◌++◌, ◌==◌, reverse, drop, keep, is_empty,
  if◌then◌else◌, length,
}
use mouseion.Text.{Text, codes, text_eq, strip}

pub record Message : Type 0 where
  pub role : Text
  pub content : Text

-- `items[-n:]` for a positive `n`
abbrev pub last_of {ℓ} : {A : Type ℓ} → ℕ → List A → List A
last_of n xs = drop (length xs - n) xs

abbrev pub bounded : ℕ → Message → Message
bounded remaining m = record m { content = last_of remaining (strip m.content) }

-- the loop over the newest messages, the newest first
unfoldable pub bound_from : ℕ → List Message → List Message
bound_from remaining [] = []
bound_from remaining (m ∷ ms) =
    let kept = bounded remaining m in
    let rest = bound_from (remaining - length kept.content) ms in
    let skipped = bound_from remaining ms in
    if is_empty (strip m.content) || remaining == 0 then skipped else kept ∷ rest

unfoldable pub bound_history : List Message → ℕ → ℕ → List Message
bound_history messages max_messages budget_chars =
    if max_messages == 0 || budget_chars == 0
    then []
    else reverse (bound_from budget_chars (reverse (last_of max_messages messages)))

abbrev pub is_turn : Message → Bool
is_turn m =
    (text_eq m.role (codes "user") || text_eq m.role (codes "assistant"))
    && not (is_empty (strip m.content))

-- `synthesis_messages` of the history and the two texts of the prompt
unfoldable pub synthesis_messages : List Message → Text → Text → List Message
synthesis_messages prior_messages system user =
    record { role = codes "system"; content = system }
    ∷ (keep is_turn prior_messages ++ record { role = codes "user"; content = user } ∷ [])
