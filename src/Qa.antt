-- ===== src/Qa.antt =====
-- backend/src/mouseion/services/qa.py: the material that grounds an answer. What a float is, and how two
-- compare, are parameters, and so are `str.casefold`, `str` of an integer and the pattern of a citation.
pub mod Budget
pub mod History
pub mod Sections
pub mod Citations
pub mod Fusion
pub mod Gather
pub mod Grounded
pub mod Prepare
pub mod Bounds
pub mod Warned
pub mod Fused
mod Tests
use mouseion.Prelude.{ℕ, ◌+◌, Option, List, [], ◌∷◌, length}
use mouseion.Text.{Text}

pub record SectionGrounding : Type 0 where
  pub section : Text
  pub text : Text
  pub start_page : Option ℕ
  pub end_page : Option ℕ

pub record PaperGrounding (F : Type 0) : Type 0 where
  pub paper_id : ℕ
  pub title : Text
  pub score : F
  pub summary_short : Option Text
  pub summary_long : Option Text
  pub sections : List SectionGrounding

-- one term of `context_chars`
abbrev pub section_chars : Text → SectionGrounding → ℕ
section_chars title s = length s.text + length s.section + length title + 48

abbrev pub sections_chars : Text → List SectionGrounding → ℕ
sections_chars title [] = 0
sections_chars title (s ∷ more) = section_chars title s + sections_chars title more

module _ {F : Type 0} where
  abbrev pub context_chars : PaperGrounding F → ℕ
  context_chars m = sections_chars m.title m.sections

  -- `sum(item.context_chars for item in kept)`
  abbrev pub total_chars : List (PaperGrounding F) → ℕ
  total_chars [] = 0
  total_chars (m ∷ ms) = context_chars m + total_chars ms
