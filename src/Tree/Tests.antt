-- ===== src/Tree/Tests.antt =====
-- Trees of small outlines, and uses of the theorems.
use mouseion.Prelude.{ℕ, ◌+◌, ◌≤◌, ◌≡◌, refl, none, some, List, [], ◌∷◌, map, leb}
use mouseion.Text.{Text, codes, strip, is_space}
use mouseion.Effect.{Result, ok}
use mouseion.Llm.{LlmFault}
use mouseion.Tree.{NodeInfo, TreeDocument, node, nil, cons, flatten, iter_nodes}
use mouseion.Tree.Outline.{OutlineEntry, from_outline}
use mouseion.Tree.Refilled.{heading_of, depths}
use mouseion.Tree.Order.{entry_headings, from_outline-order}
use mouseion.Tree.Navigate.{navigate, select, node_by_id}
use mouseion.Tree.Selected.{AllAmong, navigate-AllAmong}

abbrev digit : ℕ → Text
digit n = (48 + n) ∷ []

abbrev entry_at : ℕ → Text → ℕ → OutlineEntry
entry_at level title page = record { level = level; title = title; page = page }

-- a section with a part, and the section after it
abbrev an_outline : List OutlineEntry
an_outline = entry_at 1 (codes "A") 1 ∷ entry_at 2 (codes "A.1") 3 ∷ entry_at 1 (codes "B") 10 ∷ []

-- The first section ends before its own part begins, not before the section that follows it.
first_section_end :
    map (λ n. n.end_page) (flatten (from_outline digit an_outline)) ≡ some 2 ∷ some 9 ∷ none ∷ []
unfolding from_outline flatten
first_section_end = refl

from_outline-order_example :
    (map heading_of (flatten (from_outline digit an_outline)) ≡ entry_headings digit 0 an_outline)
    × (depths 0 (from_outline digit an_outline) ≡ 0 ∷ 1 ∷ 0 ∷ [])
from_outline-order_example = from_outline-order digit an_outline

abbrev info : Text → NodeInfo
info k = record {
  node_id = k;
  title = k;
  level = 0;
  start_page = none;
  end_page = none;
  summary = none;
}

abbrev two_nodes : TreeDocument
two_nodes = record {
  sha256 = codes "h";
  indexer = codes "heuristic";
  nodes = cons (node (info (codes "a")) (cons (node (info (codes "b")) nil) nil)) nil;
  model = none;
  created_at = codes "now";
}

-- a model that names one node twice, and one that is not there
abbrev an_answer : Text → List NodeInfo → Result LlmFault (List Text)
an_answer question nodes = ok (codes "x" ∷ codes "b" ∷ codes "b" ∷ [])

navigate-AllAmong_example : (1 ≤ 3) × AllAmong (info (codes "b") ∷ []) (iter_nodes two_nodes)
unfolding navigate iter_nodes strip is_space select node_by_id
navigate-AllAmong_example =
    navigate-AllAmong (λ c. c ∷ []) (leb 48) an_answer two_nodes (codes "q") 3
      (info (codes "b") ∷ []) refl
