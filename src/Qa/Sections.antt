-- ===== src/Qa/Sections.antt =====
-- `_pages_for_nodes` and `_text_for_nodes` of qa.py: the text of the sections that were selected.
use mouseion.Prelude.{
  ℕ, suc, ◌-◌, ◌/◌, min, max, Bool, true, false, ◌||◌, ◌&&◌, Option, none, some, List, [], ◌∷◌,
  ◌++◌, ◌==◌, take, drop, is_empty, if◌then◌else◌, length,
}
use mouseion.Text.{Text, codes, strip, rstrip}
use mouseion.Text.Split.{join_with}
use mouseion.Tree.{NodeInfo}
use mouseion.Qa.{SectionGrounding}

-- `max(500, per_paper_budget // len(nodes))`
abbrev pub per_section : ℕ → List NodeInfo → ℕ
per_section per_paper_budget nodes = max 500 (per_paper_budget / length nodes)

-- `page or default`
abbrev pub page_or : Option ℕ → ℕ → ℕ
page_or none default = default
page_or (some p) default = if p == 0 then default else p

abbrev pub first_page : NodeInfo → ℕ
first_page node = max 1 (page_or node.start_page 1)

-- `end`, after its correction
abbrev pub last_page : List Text → NodeInfo → ℕ
last_page page_texts node =
    max (first_page node) (min (length page_texts) (page_or node.end_page (first_page node)))

abbrev pub page_excerpt : List Text → ℕ → NodeInfo → Text
page_excerpt page_texts budget node = rstrip (
    take budget (
      strip (
        join_with (10 ∷ 10 ∷ [])
          (drop (first_page node - 1) (take (last_page page_texts node) page_texts)))))

abbrev pub title_or : Text → Text → Text
title_or title default = if is_empty title then default else title

-- `lowered.find(title)`: where the first occurrence starts
abbrev pub starts_with : Text → Text → Bool
starts_with [] text = true
starts_with (c ∷ t) [] = false
starts_with (c ∷ t) (d ∷ text) = c == d && starts_with t text

abbrev pub add_one : Option ℕ → Option ℕ
add_one none = none
add_one (some n) = some (suc n)

unfoldable pub find_text_from : Text → Text → Option ℕ
find_text_from t [] = if is_empty t then some 0 else none
find_text_from t (d ∷ text) =
    let rest = find_text_from t text in if starts_with t (d ∷ text) then some 0 else add_one rest

abbrev pub or_zero : Option ℕ → ℕ
or_zero none = 0
or_zero (some n) = n

module _ (str : ℕ → Text) where
  -- `f"Pages {start}–{end}"`
  abbrev pub pages_label : ℕ → ℕ → Text
  pages_label start end = codes "Pages " ++ (str start ++ (8211 ∷ str end))

  abbrev pub page_section : List Text → ℕ → NodeInfo → SectionGrounding
  page_section page_texts budget node = record {
    section = title_or node.title (pages_label (first_page node) (last_page page_texts node));
    text = page_excerpt page_texts budget node;
    start_page = some (first_page node);
    end_page = some (last_page page_texts node);
  }

  unfoldable pub page_sections : List Text → ℕ → List NodeInfo → List SectionGrounding
  page_sections page_texts budget [] = []
  page_sections page_texts budget (node ∷ nodes) =
      let rest = page_sections page_texts budget nodes in
      if is_empty (page_excerpt page_texts budget node)
      then rest
      else page_section page_texts budget node ∷ rest

  unfoldable pub pages_for_nodes : List Text → List NodeInfo → ℕ → List SectionGrounding
  pages_for_nodes page_texts nodes per_paper_budget =
      if is_empty page_texts || is_empty nodes
      then []
      else page_sections page_texts (per_section per_paper_budget nodes) nodes

module _ (casefold : Text → Text) where
  abbrev pub offset_of : Text → NodeInfo → ℕ
  offset_of full_text node =
      if is_empty node.title
      then 0
      else or_zero (find_text_from (casefold node.title) (casefold full_text))

  abbrev pub text_excerpt : Text → ℕ → NodeInfo → Text
  text_excerpt full_text budget node =
      strip (take budget (drop (offset_of full_text node) full_text))

  abbrev pub text_section : Text → ℕ → NodeInfo → SectionGrounding
  text_section full_text budget node = record {
    section = title_or node.title (codes "Relevant section");
    text = text_excerpt full_text budget node;
    start_page = node.start_page;
    end_page = node.end_page;
  }

  unfoldable pub text_sections : Text → ℕ → List NodeInfo → List SectionGrounding
  text_sections full_text budget [] = []
  text_sections full_text budget (node ∷ nodes) =
      let rest = text_sections full_text budget nodes in
      if is_empty (text_excerpt full_text budget node)
      then rest
      else text_section full_text budget node ∷ rest

  unfoldable pub text_for_nodes : Text → List NodeInfo → ℕ → List SectionGrounding
  text_for_nodes full_text nodes per_paper_budget =
      if is_empty (strip full_text) || is_empty nodes
      then []
      else text_sections full_text (per_section per_paper_budget nodes) nodes
