-- ===== src/Tree/Navigate.antt =====
-- `navigate` and `_navigate_lexically` of tree_indexer.py. `str.lower` and `str.isalnum` of a character
-- are parameters, and so is the answer of the model for a question and the nodes.
use mouseion.Prelude.{
  ℕ, zero, suc, ◌+◌, Bool, not, ◌||◌, Option, none, some, List, [], ◌∷◌, ◌++◌, ◌==◌, ltb, take, map,
  keep, is_empty, if◌then◌else◌, length,
}
use mouseion.Text.{Text, has_text, text_eq, strip, is_space}
use mouseion.Effect.{Result, ok, err}
use mouseion.Llm.{LlmFault}
use mouseion.Tree.{NodeInfo, TreeDocument, iter_nodes}

-- `by_id.get(node_id)`; of two nodes with one id the dict keeps the later.
unfoldable pub node_by_id : Text → List NodeInfo → Option NodeInfo
node_by_id k [] = none
node_by_id k (n ∷ ns) =
    let rest = node_by_id k ns in
    elim rest [ some m ↦ some m | none ↦ if text_eq n.node_id k then some n else none ]

-- the loop over the selected ids, where `room` more nodes fit, and `seen` has the ids before
unfoldable pub select : List NodeInfo → ℕ → List Text → List Text → List NodeInfo
select nodes zero seen node_ids = []
select nodes (suc room) seen [] = []
select nodes (suc room) seen (k ∷ node_ids) =
    let skipped = select nodes (suc room) seen node_ids in
    let rest = select nodes room (k ∷ seen) node_ids in
    if has_text k seen
    then skipped
    else elim (node_by_id k nodes) [ none ↦ skipped | some n ↦ n ∷ rest ]

module _ (lower : ℕ → Text) (is_alnum : ℕ → Bool) where
  abbrev pub blank_out : Text → Text
  blank_out [] = []
  blank_out (c ∷ t) = (if is_alnum c then lower c else 32 ∷ []) ++ blank_out t

  -- `text.split()`: the parts between white space, where `word` is what the last part has so far
  unfoldable pub words_from : Text → Text → List Text
  words_from word [] = if is_empty word then [] else word ∷ []
  words_from word (c ∷ t) =
      let ended = words_from [] t in
      let longer = words_from (word ++ c ∷ []) t in
      if not (is_space c) then longer else if is_empty word then ended else word ∷ ended

  unfoldable pub tokenize : Text → List Text
  unfolding words_from
  tokenize text = words_from [] (blank_out text)

  -- `set(items)`, as a list
  abbrev pub distinct : List Text → List Text
  distinct [] = []
  distinct (t ∷ ts) = let rest = distinct ts in if has_text t rest then rest else t ∷ rest

  abbrev pub terms_of : Text → List Text
  terms_of question = distinct (keep (λ t. ltb 2 (length t)) (tokenize question))

  -- `len(terms & set(haystack))`
  abbrev pub hits : List Text → Text → ℕ
  hits terms text = length (keep (λ t. has_text t (tokenize text)) terms)

  abbrev pub summary_or_empty : Option Text → Text
  summary_or_empty none = []
  summary_or_empty (some t) = t

  abbrev pub overlap_of : List Text → NodeInfo → ℕ
  overlap_of terms n = hits terms (n.title ++ (32 ∷ summary_or_empty n.summary))

  unfoldable pub score_nodes : List Text → List NodeInfo → List (ℕ × NodeInfo)
  score_nodes terms [] = []
  score_nodes terms (n ∷ ns) =
      let rest = score_nodes terms ns in
      if overlap_of terms n == 0 then rest else (overlap_of terms n + hits terms n.title, n) ∷ rest

  unfoldable pub insert_scored : ℕ × NodeInfo → List (ℕ × NodeInfo) → List (ℕ × NodeInfo)
  insert_scored x [] = x ∷ []
  insert_scored (a, n) ((b, m) ∷ rest) =
      let later = insert_scored (a, n) rest in
      if ltb a b then (b, m) ∷ later else (a, n) ∷ (b, m) ∷ rest

  -- `scored.sort(key=..., reverse=True)` keeps the order of equal scores.
  unfoldable pub sort_scored : List (ℕ × NodeInfo) → List (ℕ × NodeInfo)
  unfolding insert_scored
  sort_scored [] = []
  sort_scored (x ∷ xs) = insert_scored x (sort_scored xs)

  unfoldable pub navigate_lexically : List NodeInfo → Text → ℕ → List NodeInfo
  navigate_lexically nodes question limit =
      if is_empty (terms_of question)
      then []
      else map (λ x. x.1) (take limit (sort_scored (score_nodes (terms_of question) nodes)))

  abbrev pub or_lexically : List NodeInfo → List NodeInfo → Text → ℕ → List NodeInfo
  or_lexically [] nodes question limit = navigate_lexically nodes question limit
  or_lexically (n ∷ selected) nodes question limit = n ∷ selected

  abbrev pub after_selection :
      List NodeInfo → Text → ℕ → Result LlmFault (List Text) → Result LlmFault (List NodeInfo)
  after_selection nodes question limit (err e) = err e
  after_selection nodes question limit (ok node_ids) =
      ok (or_lexically (select nodes limit [] node_ids) nodes question limit)

  -- `ask` is the validated answer of the model for the question and the nodes.
  unfoldable pub navigate :
      (Text → List NodeInfo → Result LlmFault (List Text))
      → TreeDocument
      → Text
      → ℕ
      → Result LlmFault (List NodeInfo)
  navigate ask tree question limit =
      if is_empty (iter_nodes tree) || (is_empty (strip question) || limit == 0)
      then ok []
      else after_selection (iter_nodes tree) question limit (ask question (iter_nodes tree))
