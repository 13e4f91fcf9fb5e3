-- ===== src/Prompts.antt =====
-- backend/src/mouseion/services/prompts.py: the parts of the prompts that are assembled under a budget. The
-- system texts are constants of the file and are left out. `str.splitlines`, `str.split`, `str.lower` and the
-- two patterns of a heading are parameters.
mod Tests
use mouseion.Prelude.{
  ℕ, ◌+◌, ◌-◌, ◌*◌, ◌/◌, max, Bool, true, false, not, ◌||◌, Option, none, some, List, [], ◌∷◌, ◌++◌,
  ltb, leb, map, take, drop, is_empty, if◌then◌else◌, length,
}
use mouseion.Text.{Text, codes, has_text, strip, rstrip}
use mouseion.Text.Split.{join_with}
use mouseion.Tree.{NodeInfo}

pub record GroundingExcerpt : Type 0 where
  pub paper_id : ℕ
  pub paper_title : Text
  pub section : Text
  pub text : Text

-- `"\n".join(lines)`
abbrev pub lines_of : List Text → Text
lines_of lines = join_with (10 ∷ []) lines

abbrev pub excerpt_lines : GroundingExcerpt → List Text
excerpt_lines e =
    []
    ∷ (codes "### Paper: " ++ e.paper_title)
    ∷ (codes "#### Section: " ++ e.section)
    ∷ []
    ∷ strip e.text
    ∷ []

abbrev pub all_excerpt_lines : List GroundingExcerpt → List Text
all_excerpt_lines [] = []
all_excerpt_lines (e ∷ es) = excerpt_lines e ++ all_excerpt_lines es

abbrev pub grounding_lines : List GroundingExcerpt → List Text
grounding_lines [] = [] ∷ codes "(none)" ∷ []
grounding_lines (e ∷ es) = all_excerpt_lines (e ∷ es)

-- the user's part of `build_grounding_prompt`
unfoldable pub build_grounding_prompt : Text → List GroundingExcerpt → Text
build_grounding_prompt question excerpts = lines_of (
    codes "## QUESTION"
    ∷ []
    ∷ strip question
    ∷ []
    ∷ codes "## GROUNDING EXCERPTS"
    ∷ grounding_lines excerpts)

module _ (split : Text → List Text) where
  abbrev pub summary_tail : Option Text → Text
  summary_tail none = []
  summary_tail (some summary) =
      if is_empty summary then [] else (32 ∷ 8212 ∷ 32 ∷ []) ++ join_with (32 ∷ []) (split summary)

  abbrev pub node_line : NodeInfo → Text
  node_line n = codes "- [" ++ (n.node_id ++ (codes "] " ++ (n.title ++ summary_tail n.summary)))

  -- the loop over the nodes; a line that just fits leaves no room, as in the code, where it leaves -1
  unfoldable pub node_lines : ℕ → List NodeInfo → List Text
  node_lines remaining [] = []
  node_lines remaining (n ∷ ns) =
      let rest = node_lines (remaining - (length (node_line n) + 1)) ns in
      if ltb remaining (length (node_line n)) then [] else node_line n ∷ rest

  -- the user's part of `build_tree_navigation_prompt`
  unfoldable pub build_tree_navigation_prompt : Text → List NodeInfo → ℕ → Text
  unfolding node_lines
  build_tree_navigation_prompt question nodes text_budget = lines_of (
      codes "Select the tree nodes most likely to contain evidence for the question."
      ∷ codes "Return node ids in descending relevance. Use only ids shown below."
      ∷ []
      ∷ codes "## QUESTION"
      ∷ []
      ∷ strip question
      ∷ []
      ∷ codes "## TREE NODES"
      ∷ []
      ∷ node_lines text_budget nodes)

module _ (splitlines : Text → List Text) (lower : Text → Text) (is_heading : Text → Bool) where
  -- `seen` has the keys of the headers before
  unfoldable pub headers_from : List Text → List Text → List Text
  headers_from seen [] = []
  headers_from seen (raw_line ∷ lines) =
      let line = strip raw_line in
      let skipped = headers_from seen lines in
      let rest = headers_from (lower line ∷ seen) lines in
      if is_empty line || ltb 90 (length line)
      then skipped
      else if not (is_heading line)
      then skipped
      else if has_text (lower line) seen
      then skipped
      else line ∷ rest

  unfoldable pub extract_section_headers : Text → List Text
  unfolding headers_from
  extract_section_headers text = headers_from [] (splitlines text)

  -- `int(budget * 0.8)`, with the floor of the product in place of the rounding of a float
  abbrev pub head_budget : ℕ → ℕ
  head_budget budget = max 1 (budget * 4 / 5)

  abbrev pub header_part : List Text → List Text
  header_part [] = []
  header_part (h ∷ hs) =
      [] ∷ codes "SECTION HEADINGS FROM THE OMITTED PART:" ∷ map (λ x. codes "- " ++ x) (h ∷ hs)

  unfoldable pub bound_paper_text : Text → ℕ → Text
  bound_paper_text text budget =
      if leb (length (strip text)) budget
      then strip text
      else lines_of (
          rstrip (take (head_budget budget) (strip text))
          ∷ []
          ∷ codes "[... middle of the paper omitted ...]"
          ∷ header_part (extract_section_headers (drop (head_budget budget) (strip text))))
