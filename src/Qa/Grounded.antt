-- ===== src/Qa/Grounded.antt =====
-- A paper that has text grounds an answer.
use mouseion.Prelude.{
  ℕ, ◌≡◌, refl, subst, Bool, false, Option, none, some, List, [], ◌∷◌, arith, is_empty,
}
use mouseion.Text.{Text, strip}
use mouseion.Effect.{Result, ok, err, ok_inj}
use mouseion.Llm.{LlmFault}
use mouseion.Papers.{PaperRow, PaperText, get_paper, get_full_text}
use mouseion.Tree.{NodeInfo, TreeDocument}
use mouseion.Ingest.{Library, Runtime}
use mouseion.Ingest.Fetch.{find_file}
use mouseion.Qa.{SectionGrounding, PaperGrounding}
use mouseion.Qa.Gather.{
  QaFault, QaSettings, full_text_of, or_whole, with_summary, or_abstract, node_excerpts,
  all_sections, grounding_of, grounded, ground_nodes, selected_nodes, load_tree,
  gather_grounding_material_for_paper,
}

-- There is at least one section.
abbrev pub NonEmpty : List SectionGrounding → Type 0
NonEmpty sections = is_empty sections ≡ false

with_summary-NonEmpty :
    (summary : Option Text) (es : List SectionGrounding)
    → NonEmpty es
    → NonEmpty (with_summary summary es)
with_summary-NonEmpty none es h = h
with_summary-NonEmpty (some t) es h = ground (arith, h)

or_abstract-NonEmpty :
    (abstract : Option Text) (es : List SectionGrounding)
    → NonEmpty es
    → NonEmpty (or_abstract abstract es)
or_abstract-NonEmpty none es h = h
or_abstract-NonEmpty (some t) es h = rw h h

or_whole-NonEmpty :
    (settings : QaSettings) (text : Option PaperText) (es : List SectionGrounding)
    → is_empty (strip (full_text_of text)) ≡ false
    → NonEmpty (or_whole settings text es)
or_whole-NonEmpty settings text [] h = rw h refl
or_whole-NonEmpty settings text (e ∷ es) h = refl

module _ (rt : Runtime) (settings : QaSettings) (str : ℕ → Text) (casefold : Text → Text)
    {F : Type 0} (score : F) (s : Library) (p : PaperRow)
    (has_text : is_empty (strip (full_text_of (get_full_text s.papers p.id))) ≡ false) where
  grounded-NonEmpty :
      (r : Result QaFault (List SectionGrounding)) (g : PaperGrounding F)
      → grounded rt settings str casefold score p (get_full_text s.papers p.id) r ≡ ok g
      → NonEmpty g.sections
  unfolding all_sections
  grounded-NonEmpty (err e) g h = cc
  grounded-NonEmpty (ok es) g h =
      let text : Option PaperText = get_full_text s.papers p.id in
      subst (λ (x : PaperGrounding F). NonEmpty x.sections)
        (ok_inj
          (grounding_of rt settings str casefold score p
            (all_sections rt settings str casefold p text es))
          g h)
        (or_abstract-NonEmpty p.abstract (with_summary p.summary_long (or_whole settings text es)) (
          with_summary-NonEmpty p.summary_long (or_whole settings text es)
            (or_whole-NonEmpty settings text es has_text)))

  ground_nodes-NonEmpty :
      (r : Result LlmFault (List NodeInfo)) (g : PaperGrounding F)
      → ground_nodes rt settings str casefold score s p r ≡ ok g
      → NonEmpty g.sections
  ground_nodes-NonEmpty (err e) g h = cc
  ground_nodes-NonEmpty (ok nodes) g h =
      grounded-NonEmpty
        (node_excerpts rt settings str casefold nodes (full_text_of (get_full_text s.papers p.id))
          (find_file p.sha256 s.files))
        g h

  -- The material that is gathered for a paper with a text that is not blank has a section, whichever
  -- nodes the model selects, and also where there is no tree and no file.
  pub gather_grounding_material_for_paper-NonEmpty :
      (navigate_in : TreeDocument → Result LlmFault (List NodeInfo)) (paper_id : ℕ)
      (navigate_tree : Bool) (g : PaperGrounding F)
      → get_paper s.papers paper_id ≡ some p
      → gather_grounding_material_for_paper rt settings str casefold navigate_in s paper_id score
          navigate_tree
        ≡ ok g
      → NonEmpty g.sections
  unfolding gather_grounding_material_for_paper
  gather_grounding_material_for_paper-NonEmpty navigate_in paper_id navigate_tree g found h =
      ground_nodes-NonEmpty (selected_nodes navigate_in navigate_tree (load_tree s paper_id)) g
        (rw (found, gather_grounding_material_for_paper) at h)
