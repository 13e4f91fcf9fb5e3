-- ===== src/Qa/Fusion.antt =====
-- `reciprocal_rank_fusion` of qa.py, over the floats: 0.0, `+`, `<` and `1.0 / n` are parameters.
use mouseion.Prelude.{
  ℕ, suc, ◌+◌, min, Bool, true, false, Option, none, some, List, [], ◌∷◌, ◌==◌, ltb, map, take,
  if◌then◌else◌,
}
use mouseion.Prelude.Keys.{contains}

-- `rank_of` of a dict of ranks
abbrev pub rank_of : ℕ → List (ℕ × ℕ) → Option ℕ
rank_of k [] = none
rank_of k ((j, rank) ∷ ranks) = if j == k then some rank else rank_of k ranks

-- The first rank of every id, from `rank` on; `seen` has the ids before.
unfoldable pub ranks_from : ℕ → List ℕ → List ℕ → List (ℕ × ℕ)
ranks_from rank seen [] = []
ranks_from rank seen (k ∷ ids) =
    let again = ranks_from (suc rank) seen ids in
    let rest = ranks_from (suc rank) (k ∷ seen) ids in
    if contains k seen then again else (k, rank) ∷ rest

unfoldable pub ranks_of : List ℕ → List (ℕ × ℕ)
unfolding ranks_from
ranks_of ids = ranks_from 1 [] ids

-- `ranks.get(paper_id, 10**9)`
abbrev pub or_last : Option ℕ → ℕ
or_last none = 1000000000
or_last (some rank) = rank

pub record HybridCandidate (F : Type 0) : Type 0 where
  pub paper_id : ℕ
  pub score : F
  pub vector_rank : Option ℕ
  pub fts_rank : Option ℕ

module _ {F : Type 0} (zero_score : F) (plus : F → F → F) (lower : F → F → Bool)
    (reciprocal : ℕ → F) where
  -- `scores[k] = scores.get(k, 0.0) + 1.0 / (60 + rank)`
  unfoldable pub add_score : ℕ → ℕ → List (ℕ × F) → List (ℕ × F)
  add_score k rank [] = (k, plus zero_score (reciprocal (60 + rank))) ∷ []
  add_score k rank ((j, score) ∷ scores) =
      let rest = add_score k rank scores in
      if j == k then (j, plus score (reciprocal (60 + rank))) ∷ scores else (j, score) ∷ rest

  unfoldable pub add_scores : List (ℕ × ℕ) → List (ℕ × F) → List (ℕ × F)
  unfolding add_score
  add_scores [] scores = scores
  add_scores ((k, rank) ∷ ranks) scores = add_scores ranks (add_score k rank scores)

  abbrev pub best_rank : HybridCandidate F → ℕ
  best_rank c = min (or_last c.vector_rank) (or_last c.fts_rank)

  -- the order of the keys `(-score, best rank, id)`
  abbrev pub before : HybridCandidate F → HybridCandidate F → Bool
  before a b =
      if lower b.score a.score
      then true
      else if lower a.score b.score
      then false
      else if best_rank a == best_rank b
      then ltb a.paper_id b.paper_id
      else ltb (best_rank a) (best_rank b)

  unfoldable pub insert_candidate :
      HybridCandidate F → List (HybridCandidate F) → List (HybridCandidate F)
  insert_candidate c [] = c ∷ []
  insert_candidate c (d ∷ ds) =
      let rest = insert_candidate c ds in if before c d then c ∷ d ∷ ds else d ∷ rest

  unfoldable pub sort_candidates : List (HybridCandidate F) → List (HybridCandidate F)
  unfolding insert_candidate
  sort_candidates [] = []
  sort_candidates (c ∷ cs) = insert_candidate c (sort_candidates cs)

  abbrev pub candidate : List (ℕ × ℕ) → List (ℕ × ℕ) → ℕ × F → HybridCandidate F
  candidate vector_ranks fts_ranks (k, score) = record {
    paper_id = k;
    score = score;
    vector_rank = rank_of k vector_ranks;
    fts_rank = rank_of k fts_ranks;
  }

  unfoldable pub all_candidates : List ℕ → List ℕ → List (HybridCandidate F)
  all_candidates vector_ids fts_ids =
      map (candidate (ranks_of vector_ids) (ranks_of fts_ids))
        (add_scores (ranks_of fts_ids) (add_scores (ranks_of vector_ids) []))

  unfoldable pub reciprocal_rank_fusion : List ℕ → List ℕ → ℕ → List (HybridCandidate F)
  unfolding sort_candidates all_candidates
  reciprocal_rank_fusion vector_ids fts_ids limit =
      take limit (sort_candidates (all_candidates vector_ids fts_ids))
