-- ===== src/Qa/Gather.antt =====
-- `gather_grounding_material_for_paper` of qa.py, with `load_tree` of tree_indexer.py: the sections of
-- one paper that a question is answered from. A tree file that cannot be read is left out.
use mouseion.Prelude.{
  ℕ, Bool, not, ◌&&◌, Option, none, some, List, [], ◌∷◌, ◌++◌, ◌==◌, take, is_empty, if◌then◌else◌,
}
use mouseion.Text.{Text, codes, text_eq, strip, rstrip}
use mouseion.Effect.{Result, ok, err}
use mouseion.Llm.{LlmFault}
use mouseion.Papers.{PaperRow, PaperText, get_paper, get_full_text}
use mouseion.Tree.{NodeInfo, TreeDocument}
use mouseion.Ingest.{Library, IngestFault, Runtime, ExtractedText, Bytes}
use mouseion.Ingest.Fetch.{find_file}
use mouseion.Ingest.Steps.{extract_text}
use mouseion.Qa.{SectionGrounding, PaperGrounding}
use mouseion.Qa.Sections.{pages_for_nodes, text_for_nodes}

-- QANotFoundError, and what the model and the PDF library raise
pub data QaFault : Type 0 where
  paper_not_found : ℕ → QaFault
  from_model : LlmFault → QaFault
  from_pdf : IngestFault → QaFault

-- the settings that are read
pub record QaSettings : Type 0 where
  pub qa_sections_per_paper : ℕ
  pub qa_section_budget_chars : ℕ

abbrev pub find_tree : Text → List (Text × TreeDocument) → Option TreeDocument
find_tree sha [] = none
find_tree sha ((name, tree) ∷ trees) = if text_eq name sha then some tree else find_tree sha trees

abbrev pub tree_of : Option PaperRow → Library → Option TreeDocument
tree_of none s = none
tree_of (some p) s = find_tree p.sha256 s.trees

unfoldable pub load_tree : Library → ℕ → Option TreeDocument
load_tree s paper_id = tree_of (get_paper s.papers paper_id) s

abbrev pub full_text_of : Option PaperText → Text
full_text_of none = []
full_text_of (some t) = t.full_text

-- `row["n_pages"]`, where it is not 0
abbrev pub pages_of : Option PaperText → Option ℕ
pages_of none = none
pages_of (some t) = if t.n_pages == 0 then none else some t.n_pages

abbrev pub one_if_some : Option ℕ → Option ℕ
one_if_some none = none
one_if_some (some n) = some 1

-- the whole text where no section gave an excerpt
abbrev pub or_whole : QaSettings → Option PaperText → List SectionGrounding → List SectionGrounding
or_whole settings text excerpts =
    if is_empty excerpts && not (is_empty (strip (full_text_of text)))
    then record {
      section = codes "Whole paper";
      text = rstrip (take settings.qa_section_budget_chars (strip (full_text_of text)));
      start_page = one_if_some (pages_of text);
      end_page = pages_of text;
    }
      ∷ []
    else excerpts

abbrev pub plain_section : Text → Text → SectionGrounding
plain_section section text = record {
  section = section;
  text = text;
  start_page = none;
  end_page = none;
}

-- The stored summary comes first.
abbrev pub with_summary : Option Text → List SectionGrounding → List SectionGrounding
with_summary none excerpts = excerpts
with_summary (some summary) excerpts =
    if is_empty summary
    then excerpts
    else plain_section (codes "Library summary") summary ∷ excerpts

abbrev pub or_abstract : Option Text → List SectionGrounding → List SectionGrounding
or_abstract none excerpts = excerpts
or_abstract (some abstract) excerpts =
    if is_empty excerpts && not (is_empty abstract)
    then plain_section (codes "Abstract") abstract ∷ []
    else excerpts

-- `_title`
abbrev pub title_of : (ℕ → Text) → PaperRow → Text
title_of str p = titled (stripped p.title)
  where
    stripped : Option Text → Text
    stripped none = []
    stripped (some t) = strip t

    titled : Text → Text
    titled [] = codes "Untitled paper " ++ str p.id
    titled (c ∷ t) = c ∷ t

-- the nodes that the model selects
abbrev pub selected_nodes :
    (TreeDocument → Result LlmFault (List NodeInfo))
    → Bool
    → Option TreeDocument
    → Result LlmFault (List NodeInfo)
selected_nodes navigate_in navigate_tree none = ok []
selected_nodes navigate_in navigate_tree (some tree) =
    if navigate_tree then navigate_in tree else ok []

module _ (rt : Runtime) (settings : QaSettings) (str : ℕ → Text) (casefold : Text → Text) where
  abbrev pub paged : List NodeInfo → ExtractedText → List SectionGrounding
  paged nodes text = pages_for_nodes str text.page_texts nodes settings.qa_section_budget_chars

  -- the pages of the selected nodes, where the file is there
  abbrev pub page_excerpts : List NodeInfo → Option Bytes → Result QaFault (List SectionGrounding)
  page_excerpts nodes none = ok []
  page_excerpts nodes (some content) = elim (extract_text rt (some content)) [
    | err e ↦ err (from_pdf e)
    | ok text ↦ ok (paged nodes text)
  ]

  abbrev pub or_text : List NodeInfo → Text → List SectionGrounding → List SectionGrounding
  or_text nodes full_text [] =
      text_for_nodes casefold full_text nodes settings.qa_section_budget_chars
  or_text nodes full_text (e ∷ es) = e ∷ es

  -- the excerpts of the selected nodes
  abbrev pub node_excerpts :
      List NodeInfo → Text → Option Bytes → Result QaFault (List SectionGrounding)
  node_excerpts [] full_text file = ok []
  node_excerpts (n ∷ nodes) full_text file = elim (page_excerpts (n ∷ nodes) file) [
    | err e ↦ err e
    | ok excerpts ↦ ok (or_text (n ∷ nodes) full_text excerpts)
  ]

  unfoldable pub all_sections :
      PaperRow → Option PaperText → List SectionGrounding → List SectionGrounding
  all_sections p text excerpts =
      or_abstract p.abstract (with_summary p.summary_long (or_whole settings text excerpts))

  module _ {F : Type 0} where
    abbrev pub grounding_of : F → PaperRow → List SectionGrounding → PaperGrounding F
    grounding_of score p sections = record {
      paper_id = p.id;
      title = title_of str p;
      score = score;
      summary_short = p.summary_short;
      summary_long = p.summary_long;
      sections = sections;
    }

    abbrev pub grounded :
        F
        → PaperRow
        → Option PaperText
        → Result QaFault (List SectionGrounding)
        → Result QaFault (PaperGrounding F)
    grounded score p text (err e) = err e
    grounded score p text (ok excerpts) = ok (grounding_of score p (all_sections p text excerpts))

    abbrev pub ground_nodes :
        F → Library → PaperRow → Result LlmFault (List NodeInfo) → Result QaFault (PaperGrounding F)
    ground_nodes score s p (err e) = err (from_model e)
    ground_nodes score s p (ok nodes) =
        let text = get_full_text s.papers p.id in
        grounded score p text (node_excerpts nodes (full_text_of text) (find_file p.sha256 s.files))

    -- `navigate_in` is `navigate` with the question, the limit and the model.
    unfoldable pub gather_grounding_material_for_paper :
        (TreeDocument → Result LlmFault (List NodeInfo))
        → Library
        → ℕ
        → F
        → Bool
        → Result QaFault (PaperGrounding F)
    gather_grounding_material_for_paper navigate_in s paper_id score navigate_tree =
        elim (get_paper s.papers paper_id) [
          | none ↦ err (paper_not_found paper_id)
          | some p ↦
              ground_nodes score s p
                (selected_nodes navigate_in navigate_tree (load_tree s paper_id))
        ]
