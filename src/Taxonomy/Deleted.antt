-- ===== src/Taxonomy/Deleted.antt =====
-- What deleting a topic does to every row and link, on every way in which the call ends.
use mouseion.Prelude.{
  ℕ, ◌≡◌, refl, ap, ◌∙◌, inl, inr, true, false, not, ◌&&◌, any, Option, none, some, List, [], ◌∷◌,
  arith, ◌==◌, ==_iff, if◌then◌else◌, opt_eq, Bool-cases, Option-cases, length,
}
use mouseion.Prelude.Keys.{contains}
use mouseion.Effect.{◌>>=◌, ◌>>◌, Result, ok, err, pure, gets, transaction, transaction_ok, bind_ok}
use mouseion.Taxonomy.Store.{
  TopicRow, Store, Fault, topic_not_found, Db, ids, find_row, parent_exists, move_children,
  has_link, papers_of, children_count, update_children, delete_row,
}
use mouseion.Taxonomy.Lookup.{require_topic}
use mouseion.Taxonomy.Walk.Below.{parent_of, here}
use mouseion.Taxonomy.Edit.{DeleteResult, delete_topic}
use mouseion.Taxonomy.Edit.Removal.{without}
use mouseion.Taxonomy.Edit.Forest.{no_cycle}
use mouseion.Taxonomy.Edit.Invariant.{IsForest, find_row-contains, find_row→parent_of}
use mouseion.Taxonomy.Edit.Links.{parent_known, has_link-remove_topic_links}
use mouseion.Taxonomy.Valid.{IsTaxonomy, delete_topic-IsTaxonomy}

-- a row, where the children of `k` go to `p`
abbrev pub promoted : ℕ → Option ℕ → Option TopicRow → Option TopicRow
promoted k p none = none
promoted k p (some t) = some (if opt_eq t.parent_id k then record t { parent_id = p } else t)

find_row-without :
    (k c : ℕ) (p : Option ℕ) (ts : List TopicRow)
    → opt_eq p k ≡ false
    → find_row c (without k p ts) ≡ (if k == c then none else promoted k p (find_row c ts))
find_row-without k c p [] h = ground arith
find_row-without k c p (t ∷ ts) h = ground (arith, h, find_row-without k c p ts)

-- A topic is not its own parent.
own_parent :
    (ts : List TopicRow) (last k : ℕ) (p : Option ℕ)
    → IsForest ts last
    → contains k (ids ts) ≡ true
    → parent_of ts k ≡ some p
    → opt_eq p k ≡ false
own_parent ts last k none f known e = refl
own_parent ts last k (some p) f known e = elim (Bool-cases (p == k)) [
  | inr other ↦ other
  | inl same ↦
      absurd
        (no_cycle k (f.rooted k known) (e ∙ ap (λ x. some (some x)) ((==_iff p k).0 same)) here)
]

-- The topic is gone with its links, its children stand under its parent, and every other row and link
-- is as before; a topic that is not there is refused.
abbrev pub Deleted : Store → ℕ → Result Fault DeleteResult × Store → Type 0
Deleted s k (err e, s') = (e ≡ topic_not_found k) × (contains k (ids s.topics) ≡ false) × (s' ≡ s)
Deleted s k (ok r, s') =
    (find_row k s.topics ≡ some r.topic)
    × (r.paper_links_removed ≡ length (papers_of k s.links))
    × (r.children_promoted ≡ children_count k s.topics)
    × ((c : ℕ)
        → find_row c s'.topics
          ≡ (if k == c then none else promoted k r.topic.parent_id (find_row c s.topics)))
    × ((p u : ℕ) → has_link p u s'.links ≡ (not (u == k) && has_link p u s.links))

delete_topic-missing :
    (s : Store) (k : ℕ)
    → find_row k s.topics ≡ none
    → delete_topic k s ≡ (err (topic_not_found k), s)
unfolding delete_topic
delete_topic-missing s k e = ground (arith, e)

pub require_topic-known :
    (s : Store) (k : ℕ) (t : TopicRow)
    → find_row k s.topics ≡ some t
    → require_topic k s ≡ (ok t, s)
require_topic-known s k t e = ground (arith, e)

-- the body of the call after the lookup, and what follows its two statements
abbrev deletion_rest : ℕ → TopicRow → ℕ → ℕ → Db DeleteResult
deletion_rest k topic links promoted = do
  delete_row k
  pure (record { topic = topic; paper_links_removed = links; children_promoted = promoted })

abbrev deletion_steps : ℕ → TopicRow → Db DeleteResult
deletion_steps k topic = do
  links ← gets (λ s. length (papers_of k s.links))
  promoted ← update_children k topic.parent_id
  deletion_rest k topic links promoted

abbrev deletion : ℕ → TopicRow → Db DeleteResult
deletion k topic = transaction (deletion_steps k topic)

deleted_store : Store → ℕ → TopicRow → Store
deleted_store s k t = (delete_row k (record s { topics = move_children k t.parent_id s.topics })).1

children_moved :
    (s : Store) (k : ℕ) (p : Option ℕ)
    → parent_exists p s.topics ≡ true
    → update_children k p s
      ≡ (ok (children_count k s.topics), record s { topics = move_children k p s.topics })
unfolding update_children
children_moved s k p known =
    let fits : (any (λ t. opt_eq t.parent_id k) s.topics && not (parent_exists p s.topics))
        ≡ false =
      ground (arith, known) in
    rw (fits, update_children) refl

delete_topic-known :
    (s : Store) (k : ℕ) (t : TopicRow)
    → find_row k s.topics ≡ some t
    → parent_exists t.parent_id s.topics ≡ true
    → delete_topic k s ≡ (
      ok (record {
        topic = t;
        paper_links_removed = length (papers_of k s.links);
        children_promoted = children_count k s.topics;
      }),
      deleted_store s k t,
    )
unfolding delete_topic deleted_store delete_row
delete_topic-known s k t e known =
    let moved : Store = record s { topics = move_children k t.parent_id s.topics } in
    bind_ok (require_topic k) (deletion k) s s t (require_topic-known s k t e)
    ∙ transaction_ok (deletion_steps k t) s (deleted_store s k t) _ (
        bind_ok (update_children k t.parent_id) (deletion_rest k t (length (papers_of k s.links))) s
          moved (children_count k s.topics) (children_moved s k t.parent_id known))

delete_topic-cases_of : (s : Store) (k : ℕ) → IsTaxonomy s → Deleted s k (delete_topic k s)
unfolding deleted_store delete_row
delete_topic-cases_of s k v = elim (Option-cases (find_row k s.topics)) [
  | inl missing ↦
      rw (delete_topic-missing s k missing)
        (refl, ground (arith, find_row-contains k s.topics, missing), refl)
  | inr (t, found) ↦
      let parent : parent_of s.topics k ≡ some t.parent_id =
        find_row→parent_of k s.topics t found in
      let known : contains k (ids s.topics) ≡ true =
        ground (arith, find_row-contains k s.topics, found) in
      rw
        (delete_topic-known s k t found
          (parent_known s.topics s.last_id k t.parent_id v.forest parent))
        (
          found,
          refl,
          refl,
          λ c.
              find_row-without k c t.parent_id s.topics
                (own_parent s.topics s.last_id k t.parent_id v.forest known parent),
          λ p u. has_link-remove_topic_links p u k s.links,
        )
]

-- Deleting a topic of a valid taxonomy keeps the taxonomy valid. Where the topic is there, the call
-- returns its row and the numbers of its links and children; the row is gone with its links, its
-- children have its parent, and every other row and link is as before. Where it is not, the call
-- raises and nothing changes.
pub delete_topic-Deleted :
    (s : Store) (k : ℕ)
    → IsTaxonomy s
    → IsTaxonomy (delete_topic k s).1 × Deleted s k (delete_topic k s)
delete_topic-Deleted s k v = (delete_topic-IsTaxonomy s k v, delete_topic-cases_of s k v)
