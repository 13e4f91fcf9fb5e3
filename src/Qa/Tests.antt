-- ===== src/Qa/Tests.antt =====
-- Small questions, and uses of the theorems.
use mouseion.Prelude.{
  ℕ, ◌+◌, ◌≤◌, ◌≡◌, refl, Bool, true, false, ◌||◌, none, some, List, [], ◌∷◌, ltb, any, arith, ◌==◌,
  map,
}
use mouseion.Prelude.Keys.{contains}
use mouseion.Text.{Text, codes, has_text, strip, is_space}
use mouseion.Effect.{ok, err}
use mouseion.Papers.{PaperRow, to_read, get_paper, get_full_text}
use mouseion.Tree.{NodeInfo}
use mouseion.Ingest.{Library, Runtime}
use mouseion.Qa.{SectionGrounding, PaperGrounding, total_chars}
use mouseion.Qa.Budget.{budget_grounding_material}
use mouseion.Qa.History.{Message}
use mouseion.Qa.Sections.{find_text_from, text_sections, text_for_nodes}
use mouseion.Qa.Citations.{label_of, titles_of, citation_warnings}
use mouseion.Qa.Fusion.{ranks_of, add_scores, all_candidates, reciprocal_rank_fusion}
use mouseion.Qa.Prepare.{
  PrepareSettings, WithinBudgets, prepare_collection_qa, prepare_collection_qa-WithinBudgets,
}
use mouseion.Qa.Fusion.{HybridCandidate}
use mouseion.Qa.Gather.{QaSettings, load_tree, all_sections, gather_grounding_material_for_paper}
use mouseion.Qa.Bounds.{budget_grounding_material-le}
use mouseion.Qa.Warned.{warns_of, citation_warnings-any}
use mouseion.Qa.Fused.{paper_ids, reciprocal_rank_fusion-either}
use mouseion.Qa.Grounded.{NonEmpty, gather_grounding_material_for_paper-NonEmpty}

abbrev a_section : SectionGrounding
a_section = record { section = codes "S"; text = codes "text"; start_page = none; end_page = none }

abbrev paper_of_score : ℕ → PaperGrounding ℕ
paper_of_score score = record {
  paper_id = score;
  title = codes "T";
  score = score;
  summary_short = none;
  summary_long = none;
  sections = a_section ∷ a_section ∷ [];
}

budget_grounding_material-le_example :
    total_chars (budget_grounding_material ltb (paper_of_score 2 ∷ paper_of_score 1 ∷ []) 60) ≤ 60
budget_grounding_material-le_example =
    budget_grounding_material-le ltb (paper_of_score 2 ∷ paper_of_score 1 ∷ []) 60

abbrev hello : Message
hello = record { role = codes "user"; content = codes " hello " }

-- an answer with a citation of a paper that is not in the context
abbrev citations : Text → List (Text × Text)
citations answer = (codes "T", codes "S") ∷ (codes "U", codes "S") ∷ []

citation_warnings-any_example :
    has_text
      (label_of (codes "U", codes "S"))
      (citation_warnings (λ t. t) citations (codes "a") (paper_of_score 1 ∷ []))
    ≡ any
        (warns_of
          (λ t. t)
          (titles_of (λ t. t) (paper_of_score 1 ∷ []))
          (label_of (codes "U", codes "S")))
        (citations (codes "a"))
citation_warnings-any_example =
    citation_warnings-any (λ t. t) citations (codes "a") (paper_of_score 1 ∷ [])
      (label_of (codes "U", codes "S"))

reciprocal_rank_fusion-either_example :
    contains 2 (
      paper_ids 0
        (λ a b. a + b)
        ltb
        (λ n. n)
        (reciprocal_rank_fusion 0 (λ a b. a + b) ltb (λ n. n) (1 ∷ 2 ∷ []) (3 ∷ []) 5))
    ≡ (contains 2 (1 ∷ 2 ∷ []) || contains 2 (3 ∷ []))
unfolding all_candidates add_scores ranks_of
reciprocal_rank_fusion-either_example =
    reciprocal_rank_fusion-either 0 (λ a b. a + b) ltb (λ n. n) (1 ∷ 2 ∷ []) (3 ∷ []) 5 2
      (omega arith)

-- a `casefold` that makes two letters of the code point 223, as Python's does
abbrev sharp : Bool → ℕ → Text → Text
sharp true c rest = 115 ∷ 115 ∷ rest
sharp false c rest = c ∷ rest

abbrev fold_sharp : Text → Text
fold_sharp [] = []
fold_sharp (c ∷ t) = sharp (c == 223) c (fold_sharp t)

abbrev a_node : NodeInfo
a_node = record {
  node_id = codes "n";
  title = codes "B";
  level = 0;
  start_page = none;
  end_page = none;
  summary = none;
}

-- The heading "B" stands at index 1 of the text and at index 2 of the folded text: the excerpt begins
-- after it.
shifted_excerpt :
    map (λ e. e.text) (text_for_nodes fold_sharp (223 ∷ codes "B cd") (a_node ∷ []) 500)
    ≡ codes "cd" ∷ []
unfolding text_for_nodes strip is_space text_sections find_text_from
shifted_excerpt = refl

abbrev a_paper : PaperRow
a_paper = record {
  id = 1;
  sha256 = codes "h";
  title = some (codes "T");
  authors = none;
  year = none;
  venue = none;
  source_url = none;
  abstract = none;
  summary_short = none;
  summary_long = none;
  status = to_read;
}

abbrev a_library : Library
a_library = record {
  jobs = [];
  papers = record {
    rows = a_paper ∷ [];
    texts = record { paper_id = 1; full_text = codes "text"; n_pages = 2 } ∷ [];
    last_id = 1;
  };
  taxonomy = record { topics = []; links = []; papers = []; last_id = 0 };
  files = [];
  trees = [];
  embeddings = [];
}

abbrev a_runtime : Runtime
a_runtime = record {
  max_upload_bytes = 100;
  sha256_bytes = λ content. content;
  loads = λ _. record { sha256 = none; url = none; source_url = none };
  dumps = λ _. codes "{}";
  open_pages = λ _. err (codes "no file");
  describe = λ _. codes "it failed";
}

abbrev some_settings : QaSettings
some_settings = record { qa_sections_per_paper = 2; qa_section_budget_chars = 500 }

abbrev whole_paper : PaperGrounding ℕ
whole_paper = record {
  paper_id = 1;
  title = codes "T";
  score = 7;
  summary_short = none;
  summary_long = none;
  sections =
      record {
        section = codes "Whole paper";
        text = codes "text";
        start_page = some 1;
        end_page = some 2;
      }
      ∷ [];
}

gather_grounding_material_for_paper-NonEmpty_example : NonEmpty whole_paper.sections
unfolding gather_grounding_material_for_paper strip get_full_text is_space get_paper load_tree
    all_sections
gather_grounding_material_for_paper-NonEmpty_example =
    gather_grounding_material_for_paper-NonEmpty a_runtime some_settings (λ n. n ∷ []) fold_sharp 7
      a_library a_paper refl (λ _. ok (a_node ∷ [])) 1 true whole_paper refl refl

abbrev some_limits : PrepareSettings
some_limits = record {
  qa_max_navigations = 1;
  qa_context_budget_chars = 60;
  qa_history_messages = 1;
  qa_history_budget_chars = 3;
}

abbrev two_candidates : List (HybridCandidate ℕ)
two_candidates =
    record { paper_id = 1; score = 7; vector_rank = some 1; fts_rank = none }
    ∷ record { paper_id = 2; score = 5; vector_rank = none; fts_rank = some 1 }
    ∷ []

prepare_collection_qa-WithinBudgets_example :
    WithinBudgets ltb a_runtime some_settings some_limits
      (λ n. n ∷ [])
      fold_sharp
      (λ _. ok (a_node ∷ []))
      a_library
      (prepare_collection_qa ltb a_runtime some_settings some_limits
        (λ n. n ∷ [])
        fold_sharp
        (λ _. ok (a_node ∷ []))
        a_library
        (codes "q")
        (hello ∷ hello ∷ [])
        two_candidates)
prepare_collection_qa-WithinBudgets_example =
    prepare_collection_qa-WithinBudgets ltb a_runtime some_settings some_limits (λ n. n ∷ [])
      fold_sharp (λ _. ok (a_node ∷ [])) a_library (codes "q") (hello ∷ hello ∷ []) two_candidates
