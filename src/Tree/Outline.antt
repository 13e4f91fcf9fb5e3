-- ===== src/Tree/Outline.antt =====
-- The trees of `HeuristicTreeIndexer`: `_from_outline`, `_from_headings`, `_from_pages`, `_build`, and
-- `_close_page_ranges`. `str` of an integer is a parameter, and so are `extract_outline`, which reads the
-- bookmarks of a file, and `extract_section_headers` of prompts.py.
use mouseion.Prelude.{
  ℕ, zero, suc, ◌+◌, ◌-◌, min, max, not, Option, none, some, List, [], ◌∷◌, ◌++◌, ◌==◌, ltb, leb,
  take, get_elem?, is_empty, if◌then◌else◌, length,
}
use mouseion.Text.{Text, codes}
use mouseion.Tree.{NodeInfo, Nodes, node, nil, cons, flatten}

-- pdfs.py: `OutlineEntry`
pub record OutlineEntry : Type 0 where
  pub level : ℕ
  pub title : Text
  pub page : ℕ

-- A node in the tree stands for a reference to it: the numbers of the children on the way to it. The
-- tree grows at the ends of lists of children, so a reference stays good.
abbrev pub Ref : Type 0
Ref = List ℕ

-- `roots.append(node)`, where the reference is empty, and `children.append(node)` of the node that the
-- reference names
unfoldable pub append_child : Ref → NodeInfo → Nodes → Nodes
append_child [] x nil = cons (node x nil) nil
append_child [] x (cons t rest) = cons t (append_child [] x rest)
append_child (n ∷ ref) x nil = nil
append_child (zero ∷ ref) x (cons (node i children) rest) =
    cons (node i (append_child ref x children)) rest
append_child (suc n ∷ ref) x (cons t rest) = cons t (append_child (n ∷ ref) x rest)

-- the number of the children of the node, or of the roots
unfoldable pub count_children : Ref → Nodes → ℕ
count_children [] nil = 0
count_children [] (cons t rest) = suc (count_children [] rest)
count_children (n ∷ ref) nil = 0
count_children (zero ∷ ref) (cons (node i children) rest) = count_children ref children
count_children (suc n ∷ ref) (cons t rest) = count_children (n ∷ ref) rest

-- a node on the stack: the reference and the level
abbrev pub Open : Type 0
Open = Ref × ℕ

-- `while stack and stack[-1].level >= node.level: stack.pop()`
unfoldable pub pop_open : ℕ → List Open → List Open
pop_open level [] = []
pop_open level (top ∷ stack) =
    let popped = pop_open level stack in if leb level top.1 then popped else top ∷ stack

-- `stack[-1]`, or the roots
abbrev pub top_ref : List Open → Ref
top_ref [] = []
top_ref (top ∷ stack) = top.0

-- `_close_page_ranges` sorts the nodes that have a start page by it, and keeps the order of equal ones.
abbrev pub start_or : ℕ → NodeInfo → ℕ
start_or default n = elim n.start_page [ none ↦ default | some p ↦ if p == 0 then default else p ]

unfoldable pub insert_start : ℕ × NodeInfo → List (ℕ × NodeInfo) → List (ℕ × NodeInfo)
insert_start x [] = x ∷ []
insert_start (i, n) ((j, m) ∷ rest) =
    let later = insert_start (i, n) rest in
    if ltb (start_or 0 m) (start_or 0 n) then (j, m) ∷ later else (i, n) ∷ (j, m) ∷ rest

-- the nodes with a start page, numbered in the order of the tree, and sorted
unfoldable pub sorted_from : ℕ → List NodeInfo → List (ℕ × NodeInfo)
unfolding insert_start
sorted_from i [] = []
sorted_from i (n ∷ ns) =
    let rest = sorted_from (suc i) ns in
    elim n.start_page [ none ↦ rest | some p ↦ insert_start (i, n) rest ]

-- the end that a node gets from the one that follows it in the sorted list
abbrev pub end_before : NodeInfo → NodeInfo → ℕ
end_before current following = max (start_or 0 current) (start_or 1 following - 1)

unfoldable pub ends_of : List (ℕ × NodeInfo) → List (ℕ × ℕ)
ends_of [] = []
ends_of ((i, current) ∷ []) = []
ends_of ((i, current) ∷ ((j, following) ∷ rest)) =
    (i, end_before current following) ∷ ends_of ((j, following) ∷ rest)

abbrev pub end_of : ℕ → List (ℕ × ℕ) → Option ℕ
end_of i [] = none
end_of i ((j, end) ∷ ends) = if j == i then some end else end_of i ends

-- `if current.end_page is None:`
abbrev pub or_end : Option ℕ → Option ℕ → Option ℕ
or_end none end = end
or_end (some p) end = some p

unfoldable pub close_from : ℕ → List (ℕ × ℕ) → List NodeInfo → List NodeInfo
close_from i ends [] = []
close_from i ends (n ∷ ns) =
    record n { end_page = or_end n.end_page (end_of i ends) } ∷ close_from (suc i) ends ns

-- the tree with new fields for its nodes, in the order of the tree
unfoldable pub refill : Nodes → List NodeInfo → Nodes × List NodeInfo
refill nil infos = (nil, infos)
refill (cons (node i children) rest) [] = (cons (node i children) rest, [])
refill (cons (node i children) rest) (j ∷ infos) =
    let below = refill children infos in
    let after = refill rest below.1 in (cons (node j below.0) after.0, after.1)

unfoldable pub close_page_ranges : Nodes → Nodes
unfolding refill close_from ends_of sorted_from flatten
close_page_ranges nodes =
    (refill nodes (close_from 0 (ends_of (sorted_from 0 (flatten nodes))) (flatten nodes))).0

module _ (str : ℕ → Text) where
  abbrev pub outline_node : ℕ → OutlineEntry → NodeInfo
  outline_node index entry = record {
    node_id = codes "n" ++ str index;
    title = entry.title;
    level = entry.level - 1;
    start_page = some entry.page;
    end_page = none;
    summary = none;
  }

  -- the loop, with the stack and the roots
  unfoldable pub place_all : ℕ → List OutlineEntry → List Open → Nodes → Nodes
  unfolding append_child count_children pop_open
  place_all index [] stack roots = roots
  place_all index (entry ∷ outline) stack roots =
      let popped = pop_open (entry.level - 1) stack in
      let parent = top_ref popped in
      place_all (suc index) outline
        ((parent ++ count_children parent roots ∷ [], entry.level - 1) ∷ popped)
        (append_child parent (outline_node index entry) roots)

  unfoldable pub from_outline : List OutlineEntry → Nodes
  unfolding close_page_ranges place_all
  from_outline outline = close_page_ranges (place_all 0 outline [] nil)

  abbrev pub heading_node : ℕ → ℕ → Text → NodeInfo
  heading_node index page heading = record {
    node_id = codes "h" ++ str index;
    title = heading;
    level = 0;
    start_page = some page;
    end_page = none;
    summary = none;
  }

  -- the nodes of the headings of one page, `index` the number of those before
  abbrev pub page_headings : ℕ → ℕ → List Text → Nodes → Nodes
  page_headings index page [] rest = rest
  page_headings index page (heading ∷ headings) rest =
      cons (node (heading_node index page heading) nil)
        (page_headings (suc index) page headings rest)

  unfoldable pub headings_from : (Text → List Text) → ℕ → ℕ → List Text → Nodes
  headings_from headers index page [] = nil
  headings_from headers index page (text ∷ pages) =
      page_headings index page (headers text)
        (headings_from headers (index + length (headers text)) (suc page) pages)

  unfoldable pub from_headings : (Text → List Text) → List Text → Nodes
  unfolding close_page_ranges headings_from
  from_headings headers page_texts = close_page_ranges (headings_from headers 0 1 page_texts)

  abbrev pub pages_node : ℕ → ℕ → Text → NodeInfo
  pages_node start end text = record {
    node_id = codes "p" ++ (str (start + 1) ++ (codes "-" ++ str end));
    title = codes "Pages " ++ (str (start + 1) ++ (8211 ∷ str end));
    level = 0;
    start_page = some (start + 1);
    end_page = some end;
    summary = if is_empty (take 300 text) then none else some (take 300 text);
  }

  -- an IndexError is none
  abbrev pub cons_pages : Option Text → (Text → NodeInfo) → Option Nodes → Option Nodes
  cons_pages none info rest = none
  cons_pages (some text) info none = none
  cons_pages (some text) info (some rest) = some (cons (node (info text) nil) rest)

  -- `range(start, n_pages, 5)`; a block takes a page at least, so the number of the pages is enough fuel
  unfoldable pub pages_from : ℕ → ℕ → ℕ → List Text → Option Nodes
  pages_from zero start n_pages page_texts = some nil
  pages_from (suc fuel) start n_pages page_texts =
      let rest = pages_from fuel (start + 5) n_pages page_texts in
      if leb n_pages start
      then some nil
      else cons_pages (get_elem? page_texts start) (pages_node start (min (start + 5) n_pages)) rest

  unfoldable pub from_pages : ℕ → List Text → Option Nodes
  unfolding pages_from
  from_pages n_pages page_texts = pages_from n_pages 0 n_pages page_texts

  abbrev pub or_pages : Nodes → ℕ → List Text → Option Nodes
  or_pages nil n_pages page_texts = from_pages n_pages page_texts
  or_pages (cons t rest) n_pages page_texts = some (cons t rest)

  -- `_build` of the outline and of the pages that were extracted
  unfoldable pub build_nodes : (Text → List Text) → List OutlineEntry → ℕ → List Text → Option Nodes
  build_nodes headers outline n_pages page_texts =
      if not (is_empty outline)
      then some (from_outline outline)
      else if is_empty page_texts
      then some nil
      else or_pages (from_headings headers page_texts) n_pages page_texts
