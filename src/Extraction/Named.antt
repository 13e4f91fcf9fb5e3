-- ===== src/Extraction/Named.antt =====
-- A topic decision that validates can be applied: a name that it proposes has a letter, so its normal
-- form is not blank.
use mouseion.Prelude.{◌≡◌, true, not, Bool, Option, none, some, any}
use mouseion.Text.{Text, is_space}
use mouseion.Taxonomy.Store.{Store}
use mouseion.Taxonomy.Applied.{Applied}
use mouseion.Extraction.{is_letter}

abbrev has_ink : Text → Bool
has_ink s = any (λ c. not (is_space c)) s

abbrev HasLetter : Option Text → Type 0
HasLetter none = Unit
HasLetter (some name) = any is_letter name ≡ true
