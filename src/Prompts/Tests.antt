-- ===== src/Prompts/Tests.antt =====
-- A prompt with one node that fits, and one that does not; a text that is cut.
use mouseion.Prelude.{◌≡◌, refl, false, none, [], ◌∷◌, ◌++◌}
use mouseion.Text.{Text, codes, strip, rstrip, is_space}
use mouseion.Tree.{NodeInfo}
use mouseion.Prompts.{node_lines, bound_paper_text, extract_section_headers}

abbrev titled : Text → NodeInfo
titled t = record {
  node_id = codes "n";
  title = t;
  level = 0;
  start_page = none;
  end_page = none;
  summary = none;
}

one_line_fits :
    node_lines (λ t. t ∷ []) 9 (titled (codes "AB") ∷ titled (codes "CD") ∷ [])
    ≡ codes "- [n] AB" ∷ []
unfolding node_lines
one_line_fits = refl

cut_text :
    bound_paper_text (λ t. t ∷ []) (λ t. t) (λ t. false) (codes "abcdefghij") 5
    ≡ codes "abcd" ++ (10 ∷ 10 ∷ codes "[... middle of the paper omitted ...]")
unfolding bound_paper_text strip rstrip is_space extract_section_headers
cut_text = refl
