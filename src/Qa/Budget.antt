-- ===== src/Qa/Budget.antt =====
-- `budget_grounding_material` of qa.py.
use mouseion.Prelude.{
  ℕ, zero, suc, ◌+◌, ◌-◌, Bool, ◌||◌, List, [], ◌∷◌, leb, take, is_empty, if◌then◌else◌, length,
}
use mouseion.Text.{Text, rstrip}
use mouseion.Qa.{SectionGrounding, PaperGrounding, total_chars}

-- `kept.pop(index)`
abbrev pub pop {ℓ} : {A : Type ℓ} → ℕ → List A → List A
pop i [] = []
pop zero (x ∷ xs) = xs
pop (suc i) (x ∷ xs) = x ∷ pop i xs

-- what a section costs beside its text
abbrev pub overhead : Text → SectionGrounding → ℕ
overhead title s = length title + length s.section + 48

abbrev pub cut : ℕ → SectionGrounding → SectionGrounding
cut available s = record s { text = rstrip (take available s.text) }

-- the loop over the sections; a section whose text is blank is left out and costs nothing
unfoldable pub trim_sections : Text → ℕ → List SectionGrounding → List SectionGrounding
trim_sections title remaining [] = []
trim_sections title remaining (s ∷ more) =
    let kept = cut (remaining - overhead title s) s in
    let rest = trim_sections title (remaining - (overhead title s + length kept.text)) more in
    let skipped = trim_sections title remaining more in
    if leb remaining (overhead title s)
    then []
    else if is_empty kept.text
    then skipped
    else kept ∷ rest

module _ {F : Type 0} (lower : F → F → Bool) where
  -- the index with the least `(score, -index)`, where `best` at `at` is the least so far
  abbrev pub weakest_from : ℕ → ℕ → F → List (PaperGrounding F) → ℕ
  weakest_from i at best [] = at
  weakest_from i at best (m ∷ ms) =
      if lower best m.score
      then weakest_from (suc i) at best ms
      else weakest_from (suc i) i m.score ms

  abbrev pub weakest : List (PaperGrounding F) → ℕ
  weakest [] = 0
  weakest (m ∷ ms) = weakest_from 1 0 m.score ms

  -- the `while` loop; every round pops one of the items, so their number is enough fuel
  unfoldable pub evict : ℕ → ℕ → List (PaperGrounding F) → List (PaperGrounding F)
  evict zero budget_chars kept = kept
  evict (suc fuel) budget_chars kept =
      let rest = evict fuel budget_chars (pop (weakest kept) kept) in
      if leb (length kept) 1 || leb (total_chars kept) budget_chars then kept else rest

  abbrev pub with_sections : PaperGrounding F → List SectionGrounding → List (PaperGrounding F)
  with_sections m [] = []
  with_sections m (s ∷ more) = record m { sections = s ∷ more } ∷ []

  -- what follows the loop
  abbrev pub trim_first : ℕ → List (PaperGrounding F) → List (PaperGrounding F)
  trim_first budget_chars [] = []
  trim_first budget_chars (m ∷ ms) =
      if leb (total_chars (m ∷ ms)) budget_chars
      then m ∷ ms
      else with_sections m (trim_sections m.title budget_chars m.sections)

  unfoldable pub budget_grounding_material : List (PaperGrounding F) → ℕ → List (PaperGrounding F)
  budget_grounding_material materials budget_chars =
      trim_first budget_chars (evict (length materials) budget_chars materials)
