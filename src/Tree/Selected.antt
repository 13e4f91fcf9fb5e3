-- ===== src/Tree/Selected.antt =====
-- What a navigation returns.
use mouseion.Prelude.{
  ℕ, zero, suc, ◌≤◌, ◌≡◌, refl, ap, subst, ◌∙◌, ltb, ◌⊎◌, inl, inr, Bool, ◌||◌, Option, none, some,
  List, [], ◌∷◌, arith, ◌==◌, All, take, map, length, length-take, is_empty, Bool-cases,
  Option-cases,
}
use mouseion.Text.{Text, has_text, text_eq, strip}
use mouseion.Effect.{Result, ok, Result-cases, ok_inj}
use mouseion.Llm.{LlmFault}
use mouseion.Tree.{NodeInfo, TreeDocument, iter_nodes}
use mouseion.Tree.Navigate.{
  node_by_id, select, overlap_of, terms_of, score_nodes, insert_scored, sort_scored,
  navigate_lexically, or_lexically, navigate,
}

-- the node is one of the list
abbrev pub Among : NodeInfo → List NodeInfo → Type 0
Among n [] = ⊥
Among n (m ∷ ms) = (m ≡ n) ⊎ Among n ms

abbrev pub AllAmong : List NodeInfo → List NodeInfo → Type 0
AllAmong ns nodes = All (λ n. Among n nodes) ns

node_by_id-Among :
    (k : Text) (nodes : List NodeInfo) (n : NodeInfo) → node_by_id k nodes ≡ some n → Among n nodes
unfolding node_by_id
node_by_id-Among k [] n h = cc
node_by_id-Among k (m ∷ ms) n h = elim (Option-cases (node_by_id k ms)) [
  | inr (x, e) ↦ inr (node_by_id-Among k ms n (e ∙ (rw (e, node_by_id) at h)))
  | inl e ↦ elim (Bool-cases (text_eq m.node_id k)) [
    | inl here ↦ inl (some_inj (rw (e, here, node_by_id) at h))
    | inr other ↦ cc (rw (e, other, node_by_id) at h)
  ]
]
  where
    some_inj : {a b : NodeInfo} → Path (Option NodeInfo) (some a) (some b) → a ≡ b
    some_inj {a = a} e = ap (λ o. elim o [ some x ↦ x | none ↦ a ]) e

select-Among :
    (nodes : List NodeInfo) (room : ℕ) (seen node_ids : List Text)
    → (length (select nodes room seen node_ids) ≤ room)
      × AllAmong (select nodes room seen node_ids) nodes
unfolding select
select-Among nodes zero seen node_ids = (omega arith, tt)
select-Among nodes (suc room) seen [] = (omega arith, tt)
select-Among nodes (suc room) seen (k ∷ node_ids) =
    let skipped = select-Among nodes (suc room) seen node_ids in
    let (few, all) = select-Among nodes room (k ∷ seen) node_ids in
    elim (Bool-cases (has_text k seen)) [
      | inl again ↦ rw (again, select) skipped
      | inr new ↦ elim (Option-cases (node_by_id k nodes)) [
        | inl e ↦ rw (new, e, select) skipped
        | inr (n, e) ↦ rw (new, e, select) (omega (arith, few), (node_by_id-Among k nodes n e, all))
      ]
    ]

-- the nodes of a scored list
abbrev pub Scored : List NodeInfo → List (ℕ × NodeInfo) → Type 0
Scored nodes xs = All (λ x. Among x.1 nodes) xs

All-weaken :
    (n : NodeInfo) (nodes : List NodeInfo) (xs : List (ℕ × NodeInfo))
    → Scored nodes xs
    → Scored (n ∷ nodes) xs
All-weaken n nodes [] h = tt
All-weaken n nodes (x ∷ xs) (h, hs) = (inr h, All-weaken n nodes xs hs)

Scored-take :
    (nodes : List NodeInfo) (limit : ℕ) (xs : List (ℕ × NodeInfo))
    → Scored nodes xs
    → AllAmong (map (λ x. x.1) (take limit xs)) nodes
Scored-take nodes zero xs hs = tt
Scored-take nodes (suc limit) [] hs = tt
Scored-take nodes (suc limit) (x ∷ xs) (h, hs) = (h, Scored-take nodes limit xs hs)

length-map : {A B : Type 0} (f : A → B) (xs : List A) → length (map f xs) ≡ length xs
length-map f [] = refl
length-map f (x ∷ xs) = omega (arith, length-map f xs)

module _ (lower : ℕ → Text) (is_alnum : ℕ → Bool) where
  score_nodes-Scored :
      (terms : List Text) (nodes : List NodeInfo)
      → Scored nodes (score_nodes lower is_alnum terms nodes)
  unfolding score_nodes
  score_nodes-Scored terms [] = tt
  score_nodes-Scored terms (n ∷ nodes) =
      let weaker =
        All-weaken n nodes (score_nodes lower is_alnum terms nodes)
          (score_nodes-Scored terms nodes) in
      elim (Bool-cases (overlap_of lower is_alnum terms n == 0)) [
        | inl none_hit ↦ rw none_hit weaker
        | inr hit ↦ rw hit (inl refl, weaker)
      ]

  insert_scored-Scored :
      (nodes : List NodeInfo) (x : ℕ × NodeInfo) (xs : List (ℕ × NodeInfo))
      → Among x.1 nodes
      → Scored nodes xs
      → Scored nodes (insert_scored lower is_alnum x xs)
  unfolding insert_scored
  insert_scored-Scored nodes x [] h hs = (h, tt)
  insert_scored-Scored nodes (a, n) ((b, m) ∷ rest) h (h', hs) = elim (Bool-cases (ltb a b)) [
    | inl less ↦ rw less (h', insert_scored-Scored nodes (a, n) rest h hs)
    | inr more ↦ rw more (h, (h', hs))
  ]

  sort_scored-Scored :
      (nodes : List NodeInfo) (xs : List (ℕ × NodeInfo))
      → Scored nodes xs
      → Scored nodes (sort_scored lower is_alnum xs)
  unfolding sort_scored
  sort_scored-Scored nodes [] hs = tt
  sort_scored-Scored nodes (x ∷ xs) (h, hs) =
      insert_scored-Scored nodes x (sort_scored lower is_alnum xs) h
        (sort_scored-Scored nodes xs hs)

  lexically-Among :
      (nodes : List NodeInfo) (question : Text) (limit : ℕ)
      → (length (navigate_lexically lower is_alnum nodes question limit) ≤ limit)
        × AllAmong (navigate_lexically lower is_alnum nodes question limit) nodes
  unfolding navigate_lexically
  lexically-Among nodes question limit =
      let terms : List Text = terms_of lower is_alnum question in
      let xs : List (ℕ × NodeInfo) =
        sort_scored lower is_alnum (score_nodes lower is_alnum terms nodes) in
      elim (Bool-cases (is_empty terms)) [
        | inl e ↦ rw e (omega arith, tt)
        | inr e ↦ rw e (
          omega
              (arith, length-map (λ (x : ℕ × NodeInfo). x.1) (take limit xs), length-take limit xs),
          Scored-take nodes limit xs (
              sort_scored-Scored nodes (score_nodes lower is_alnum terms nodes)
                (score_nodes-Scored terms nodes)),
        )
      ]

  or_lexically-Among :
      (selected nodes : List NodeInfo) (question : Text) (limit : ℕ)
      → (length selected ≤ limit) × AllAmong selected nodes
      → (length (or_lexically lower is_alnum selected nodes question limit) ≤ limit)
        × AllAmong (or_lexically lower is_alnum selected nodes question limit) nodes
  or_lexically-Among [] nodes question limit h = lexically-Among nodes question limit
  or_lexically-Among (n ∷ selected) nodes question limit h = h

  -- Whatever ids the model answers with, the nodes that a navigation returns are nodes of the tree, and
  -- no more than the limit.
  pub navigate-AllAmong :
      (ask : Text → List NodeInfo → Result LlmFault (List Text)) (tree : TreeDocument)
      (question : Text) (limit : ℕ) (ns : List NodeInfo)
      → navigate lower is_alnum ask tree question limit ≡ ok ns
      → (length ns ≤ limit) × AllAmong ns (iter_nodes tree)
  unfolding navigate
  navigate-AllAmong ask tree question limit ns h =
      elim (Bool-cases (is_empty (iter_nodes tree) || (is_empty (strip question) || limit == 0))) [
        | inl nothing ↦ returned [] (rw nothing at h) (omega arith, tt)
        | inr some_nodes ↦ elim (Result-cases (ask question (iter_nodes tree))) [
          | inr (e, failed) ↦ cc (rw (some_nodes, failed, navigate) at h)
          | inl (node_ids, answered) ↦
              returned
                (or_lexically lower is_alnum (select (iter_nodes tree) limit [] node_ids)
                  (iter_nodes tree) question limit)
                (rw (some_nodes, answered, navigate) at h)
                (or_lexically-Among (select (iter_nodes tree) limit [] node_ids) (iter_nodes tree)
                  question limit (select-Among (iter_nodes tree) limit [] node_ids))
        ]
      ]
    where
      returned :
          (ms : List NodeInfo)
          → Path (Result LlmFault (List NodeInfo)) (ok ms) (ok ns)
          → (length ms ≤ limit) × AllAmong ms (iter_nodes tree)
          → (length ns ≤ limit) × AllAmong ns (iter_nodes tree)
      returned ms e h' =
          subst (λ xs. (length xs ≤ limit) × AllAmong xs (iter_nodes tree)) (ok_inj ms ns e) h'
