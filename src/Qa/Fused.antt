-- ===== src/Qa/Fused.antt =====
-- What the fusion of two rankings returns.
use mouseion.Prelude.{
  ℕ, zero, suc, ◌≤◌, ◌≡◌, refl, ap, ◌∙◌, Bool, ◌||◌, List, [], ◌∷◌, arith, ◌==◌, take, map, length,
  Bool-cases, inl, inr,
}
use mouseion.Prelude.Keys.{contains}
use mouseion.Qa.Fusion.{
  ranks_from, ranks_of, HybridCandidate, add_score, add_scores, insert_candidate, sort_candidates,
  candidate, all_candidates, reciprocal_rank_fusion,
}

take-all : {A : Type 0} (n : ℕ) (xs : List A) → length xs ≤ n → take n xs ≡ xs
take-all zero [] le = refl
take-all zero (x ∷ xs) le = absurd (omega (arith, le))
take-all (suc n) [] le = refl
take-all (suc n) (x ∷ xs) le = ap (λ ys. x ∷ ys) (take-all n xs (omega (arith, le)))

abbrev pub keys_of {ℓ} : {B : Type ℓ} → List (ℕ × B) → List ℕ
keys_of [] = []
keys_of ((k, b) ∷ rest) = k ∷ keys_of rest

contains-ranks_from :
    (k rank : ℕ) (seen ids : List ℕ)
    → (contains k seen || contains k (keys_of (ranks_from rank seen ids)))
      ≡ (contains k seen || contains k ids)
unfolding ranks_from
contains-ranks_from k rank seen [] = ground arith
contains-ranks_from k rank seen (j ∷ ids) = elim (Bool-cases (contains j seen)) [
  | inl there ↦ ground (arith, there, contains-ranks_from k (suc rank) seen ids)
  | inr new ↦ ground (arith, new, contains-ranks_from k (suc rank) (j ∷ seen) ids)
]

contains-ranks_of : (k : ℕ) (ids : List ℕ) → contains k (keys_of (ranks_of ids)) ≡ contains k ids
unfolding ranks_of
contains-ranks_of k ids = contains-ranks_from k 1 [] ids

module _ {F : Type 0} (zero_score : F) (plus : F → F → F) (lower : F → F → Bool)
    (reciprocal : ℕ → F) where
  contains-add_score :
      (k j rank : ℕ) (scores : List (ℕ × F))
      → contains k (keys_of (add_score zero_score plus lower reciprocal j rank scores))
        ≡ (contains k (keys_of scores) || j == k)
  unfolding add_score
  contains-add_score k j rank [] = ground arith
  contains-add_score k j rank ((i, score) ∷ scores) =
      ground (arith, contains-add_score k j rank scores)

  contains-add_scores :
      (k : ℕ) (ranks : List (ℕ × ℕ)) (scores : List (ℕ × F))
      → contains k (keys_of (add_scores zero_score plus lower reciprocal ranks scores))
        ≡ (contains k (keys_of scores) || contains k (keys_of ranks))
  unfolding add_scores
  contains-add_scores k [] scores = ground arith
  contains-add_scores k ((j, rank) ∷ ranks) scores = ground (
    arith,
    contains-add_score k j rank scores,
    contains-add_scores k ranks (add_score zero_score plus lower reciprocal j rank scores),
  )

  abbrev pub paper_ids : List (HybridCandidate F) → List ℕ
  paper_ids [] = []
  paper_ids (c ∷ cs) = c.paper_id ∷ paper_ids cs

  contains-insert_candidate :
      (k : ℕ) (c : HybridCandidate F) (ds : List (HybridCandidate F))
      → contains k (paper_ids (insert_candidate zero_score plus lower reciprocal c ds))
        ≡ (c.paper_id == k || contains k (paper_ids ds))
  unfolding insert_candidate
  contains-insert_candidate k c [] = refl
  contains-insert_candidate k c (d ∷ ds) = ground (arith, contains-insert_candidate k c ds)

  contains-sort_candidates :
      (k : ℕ) (cs : List (HybridCandidate F))
      → contains k (paper_ids (sort_candidates zero_score plus lower reciprocal cs))
        ≡ contains k (paper_ids cs)
  unfolding sort_candidates
  contains-sort_candidates k [] = refl
  contains-sort_candidates k (c ∷ cs) = ground (
    arith,
    contains-insert_candidate k c (sort_candidates zero_score plus lower reciprocal cs),
    contains-sort_candidates k cs,
  )

  length-insert_candidate :
      (c : HybridCandidate F) (ds : List (HybridCandidate F))
      → length (insert_candidate zero_score plus lower reciprocal c ds) ≡ suc (length ds)
  unfolding insert_candidate
  length-insert_candidate c [] = refl
  length-insert_candidate c (d ∷ ds) = ground (arith, length-insert_candidate c ds)

  length-sort_candidates :
      (cs : List (HybridCandidate F))
      → length (sort_candidates zero_score plus lower reciprocal cs) ≡ length cs
  unfolding sort_candidates
  length-sort_candidates [] = refl
  length-sort_candidates (c ∷ cs) =
      length-insert_candidate c (sort_candidates zero_score plus lower reciprocal cs)
      ∙ ap suc (length-sort_candidates cs)

  contains-candidates :
      (k : ℕ) (vector_ranks fts_ranks : List (ℕ × ℕ)) (scores : List (ℕ × F))
      → contains k (
          paper_ids
            (map (candidate zero_score plus lower reciprocal vector_ranks fts_ranks) scores))
        ≡ contains k (keys_of scores)
  contains-candidates k vector_ranks fts_ranks [] = refl
  contains-candidates k vector_ranks fts_ranks ((j, score) ∷ scores) =
      ground (arith, contains-candidates k vector_ranks fts_ranks scores)

  contains-all_candidates :
      (k : ℕ) (vector_ids fts_ids : List ℕ)
      → contains k (paper_ids (all_candidates zero_score plus lower reciprocal vector_ids fts_ids))
        ≡ (contains k vector_ids || contains k fts_ids)
  unfolding all_candidates
  contains-all_candidates k vector_ids fts_ids =
      let first : List (ℕ × F) =
        add_scores zero_score plus lower reciprocal (ranks_of vector_ids) [] in
      ground (
        arith,
        contains-candidates k (ranks_of vector_ids) (ranks_of fts_ids)
            (add_scores zero_score plus lower reciprocal (ranks_of fts_ids) first),
        contains-add_scores k (ranks_of fts_ids) first,
        contains-add_scores k (ranks_of vector_ids) [],
        contains-ranks_of k vector_ids,
        contains-ranks_of k fts_ids,
      )

  -- Where the limit is no less than the number of candidates, the fusion of two rankings returns
  -- exactly the papers that are in one of them or in both, whatever the scores are.
  pub reciprocal_rank_fusion-either :
      (vector_ids fts_ids : List ℕ) (limit k : ℕ)
      → length (all_candidates zero_score plus lower reciprocal vector_ids fts_ids) ≤ limit
      → contains k (
          paper_ids
            (reciprocal_rank_fusion zero_score plus lower reciprocal vector_ids fts_ids limit))
        ≡ (contains k vector_ids || contains k fts_ids)
  unfolding reciprocal_rank_fusion
  reciprocal_rank_fusion-either vector_ids fts_ids limit k room =
      let all : List (HybridCandidate F) =
        all_candidates zero_score plus lower reciprocal vector_ids fts_ids in
      let sorted : List (HybridCandidate F) =
        sort_candidates zero_score plus lower reciprocal all in
      ap (λ cs. contains k (paper_ids cs))
        (take-all limit sorted (omega (arith, room, length-sort_candidates all)))
      ∙ (contains-sort_candidates k all ∙ contains-all_candidates k vector_ids fts_ids)
