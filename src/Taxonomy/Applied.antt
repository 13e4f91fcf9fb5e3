-- ===== src/Taxonomy/Applied.antt =====
-- One bad topic decision is dropped and does not fail the ingest.
use mouseion.Prelude.{
  ℕ, ◌≡◌, refl, ap, subst, sym, ◌∙◌, true, ◌&&◌, ◌||◌, List, [], ◌∷◌, ◌++◌, arith, ◌==◌,
  if◌then◌else◌,
}
use mouseion.Prelude.Keys.{contains}
use mouseion.Effect.{ok, pure, transaction_ok, bind_ok}
use mouseion.Taxonomy.Store.{Store, ids, has_link, insert_or_ignore}
use mouseion.Taxonomy.Lookup.{list_topics}
use mouseion.Taxonomy.Sorting.{contains-sort_by_name}
use mouseion.Taxonomy.Create.{
  TopicAssignment, AppliedTopics, Applying, apply_all, link_all, record_links, start_applying,
  apply_steps, apply_topic_assignments,
}
use mouseion.Taxonomy.Edit.Links.{insert_or_ignore-link, has_link-append}
use mouseion.Taxonomy.Valid.{IsTaxonomy, apply_topic_assignments-IsTaxonomy}
use mouseion.Taxonomy.Decided.{Good, AllReady, apply_all-Goes}

start-Good : (s : Store) → Good s (start_applying (list_topics s))
start-Good s = (λ c h. sym (contains-sort_by_name c s.topics) ∙ h, λ c h. cc h)

-- The links are made, and no other.
link_all_total :
    (paper : ℕ) (ts : List ℕ) (s : Store)
    → contains paper s.papers ≡ true
    → ((c : ℕ) → contains c ts ≡ true → contains c (ids s.topics) ≡ true)
    → (ls : List (ℕ × ℕ)) × (link_all paper ts s ≡ (ok tt, record s { links = ls }))
      × ((p u : ℕ) → has_link p u ls ≡ (has_link p u s.links || (p == paper && contains u ts)))
unfolding link_all
link_all_total paper [] s hp ht = (s.links, refl, λ p u. ground arith)
link_all_total paper (t ∷ ts) s hp ht =
    let (one, e) = insert_or_ignore-link paper t s hp (ht t (ground arith)) in
    let s' : Store = record s {
      links = if has_link paper t s.links then s.links else s.links ++ (paper, t) ∷ [];
    } in
    let (ls, e', h) = link_all_total paper ts s' hp (λ c m. ht c (ground arith)) in
    (
      ls,
      bind_ok (insert_or_ignore paper t) (λ _. link_all paper ts) s s' one e ∙ e',
      λ p u. ground (arith, h p u, has_link-append p u paper t s.links),
    )

-- The call returns; the paper is linked to the topics of the result, and every other link is as
-- before.
abbrev pub Applied : ℕ → List TopicAssignment → Store → Type 0
Applied paper ts s =
    (r : AppliedTopics) × (s' : Store) × (apply_topic_assignments paper ts s ≡ (ok r, s'))
    × IsTaxonomy s'
    × ((c : ℕ) → contains c r.topic_ids ≡ true → contains c (ids s'.topics) ≡ true)
    × ((p u : ℕ)
        → has_link p u s'.links ≡ (has_link p u s.links || (p == paper && contains u r.topic_ids)))

apply_steps-Goes :
    (paper : ℕ) (ts : List TopicAssignment) (s : Store)
    → AllReady ts
    → contains paper s.papers ≡ true
    → (r : AppliedTopics) × (s' : Store) × (apply_steps paper ts s ≡ (ok r, s'))
      × ((c : ℕ) → contains c r.topic_ids ≡ true → contains c (ids s'.topics) ≡ true)
      × ((p u : ℕ)
          → has_link p u s'.links
            ≡ (has_link p u s.links || (p == paper && contains u r.topic_ids)))
unfolding apply_steps record_links
apply_steps-Goes paper ts s ready hp =
    let start : Applying = start_applying (list_topics s) in
    let (a, s1, e1, g, papers, links) = apply_all-Goes ts start s ready (start-Good s) in
    let (ls, e2, h) =
      link_all_total paper a.result.topic_ids s1 (ap (contains paper) papers ∙ hp) g.1 in
    (
      a.result,
      record s1 { links = ls },
      bind_ok (apply_all ts start) (record_links paper) s s1 a e1
          ∙ bind_ok (link_all paper a.result.topic_ids) (λ _. pure a.result) s1
              (record s1 { links = ls }) tt e2,
      g.1,
      λ p u. ground (arith, h p u, ap (has_link p u) links),
    )

-- In a valid taxonomy, topic decisions of which each picks some id or proposes a name that is not
-- blank are applied to a paper that exists: whatever ids and parents the decisions name, the call
-- returns, the taxonomy is valid afterwards, every topic of the result is there and linked to the
-- paper, and every other link is as before.
pub apply_topic_assignments_total :
    (paper : ℕ) (ts : List TopicAssignment) (s : Store)
    → IsTaxonomy s
    → AllReady ts
    → contains paper s.papers ≡ true
    → Applied paper ts s
unfolding apply_topic_assignments
apply_topic_assignments_total paper ts s v ready hp =
    let (r, s', e, there, linked) = apply_steps-Goes paper ts s ready hp in
    let done : apply_topic_assignments paper ts s ≡ (ok r, s') =
      transaction_ok (apply_steps paper ts) s s' r e in
    (
      r,
      s',
      done,
      subst IsTaxonomy (ap (λ p. p.1) done) (apply_topic_assignments-IsTaxonomy paper ts s v),
      there,
      linked,
    )
