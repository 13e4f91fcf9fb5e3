-- ===== src/Taxonomy/Edit/Invariant.antt =====
-- The edits keep the invariant of the table `topics`: unique ids below the counter, and a forest.
use mouseion.Prelude.{
  ℕ, ◌≤◌, ◌≡◌, refl, ◌⊎◌, ◌∙◌, inl, inr, true, false, Option, none, some, List, [], ◌∷◌, arith,
  is_some,
}
use mouseion.Prelude.Keys.{contains}
use mouseion.Text.{Text}
use mouseion.Taxonomy.Store.{
  TopicRow, Store, ids, set_parent, set_name, find_row, other_has_name, update_parent, update_name,
}
use mouseion.Taxonomy.Lookup.{normalize_topic_name}
use mouseion.Taxonomy.Sorting.{UniqueIds}
use mouseion.Taxonomy.Walk.{descendant_ids}
use mouseion.Taxonomy.Walk.Below.{parent_of, Below, descendant_ids-iff-Below}
use mouseion.Taxonomy.Edit.Tables.{
  contains-set_parent, set_parent-UniqueIds, contains-set_name, set_name-UniqueIds,
  parent_of-set_name,
}
use mouseion.Taxonomy.Edit.Forest.{Rooted, root, under, RootedParent, set_parent-Rooted}
use mouseion.Taxonomy.Edit.{rename_topic, check_parent, reparent_topic}

pub record IsForest (ts : List TopicRow) (last : ℕ) : Type 0 where
  pub unique : UniqueIds ts
  pub bounded : (c : ℕ) → contains c (ids ts) ≡ true → c ≤ last
  pub rooted : (c : ℕ) → contains c (ids ts) ≡ true → Rooted ts c

abbrev pub IsValid : Store → Type 0
IsValid s = IsForest s.topics s.last_id

-- a row that is found gives the parent column
pub find_row→parent_of :
    (k : ℕ) (ts : List TopicRow) (t : TopicRow)
    → find_row k ts ≡ some t
    → parent_of ts k ≡ some t.parent_id
find_row→parent_of k ts t e = ground (arith, e)

pub set_parent-IsForest :
    (ts : List TopicRow) (last k : ℕ) (p : Option ℕ)
    → IsForest ts last
    → contains k (ids ts) ≡ true
    → RootedParent ts p
    → ((q : ℕ) → p ≡ some q → Below ts k q → ⊥)
    → IsForest (set_parent k p ts) last
set_parent-IsForest ts last k p f known rp out = record {
  unique = set_parent-UniqueIds k p ts f.unique;
  bounded = λ c h. f.bounded c (rw contains-set_parent at h);
  rooted = λ c h. set_parent-Rooted ts k p known rp out (f.rooted c (rw contains-set_parent at h));
}

set_name-IsForest :
    (ts : List TopicRow) (last k : ℕ) (name : Text)
    → IsForest ts last
    → IsForest (set_name k name ts) last
set_name-IsForest ts last k name f = record {
  unique = set_name-UniqueIds k name ts f.unique;
  bounded = λ c h. f.bounded c (rw contains-set_name at h);
  rooted = λ c h. same (f.rooted c (rw contains-set_name at h));
}
  where
    same : {c : ℕ} → Rooted ts c → Rooted (set_name k name ts) c
    same (root {c = c} e) = root (parent_of-set_name k name c ts ∙ e)
    same (under {c = c} e r) = under (parent_of-set_name k name c ts ∙ e) (same r)

pub find_row-contains : (k : ℕ) (ts : List TopicRow) → contains k (ids ts) ≡ is_some (find_row k ts)
find_row-contains k [] = refl
find_row-contains k (t ∷ ts) = ground (arith, find_row-contains k ts)

pub reparent_topic-cases :
    (s : Store) (k : ℕ) (p : ℕ)
    → ((reparent_topic k (some p) s).1 ≡ s)
      ⊎ ((contains k (ids s.topics) ≡ true)
          × (contains p (ids s.topics) ≡ true)
          × (contains p (descendant_ids s k true) ≡ false)
          × ((reparent_topic k (some p) s).1
              ≡ record s { topics = set_parent k (some p) s.topics }))
unfolding reparent_topic check_parent update_parent
reparent_topic-cases s k p =
    ground (arith, find_row-contains k s.topics, find_row-contains p s.topics)

pub reparent_topic-root_cases :
    (s : Store) (k : ℕ)
    → ((reparent_topic k none s).1 ≡ s)
      ⊎ ((contains k (ids s.topics) ≡ true)
          × ((reparent_topic k none s).1 ≡ record s { topics = set_parent k none s.topics }))
unfolding reparent_topic check_parent update_parent
reparent_topic-root_cases s k = ground (arith, find_row-contains k s.topics)

-- Moving a topic under a new parent keeps the forest, whether the guards let it pass or not.
pub reparent_topic-IsValid :
    (s : Store) (k : ℕ) (parent : Option ℕ) → IsValid s → IsValid (reparent_topic k parent s).1
reparent_topic-IsValid s k none v = elim (reparent_topic-root_cases s k) [
  | inl same ↦ rw same v
  | inr (known, moved) ↦
      rw moved (set_parent-IsForest s.topics s.last_id k none v known tt (λ q e. cc e))
]
reparent_topic-IsValid s k (some p) v = elim (reparent_topic-cases s k p) [
  | inl same ↦ rw same v
  | inr (known, parent_known, out, moved) ↦ rw moved (
      set_parent-IsForest s.topics s.last_id k (some p) v known (v.rooted p parent_known)
        (λ q e b. cc (out, (descendant_ids-iff-Below s k q v.unique known).1 b, e)))
]

pub rename_topic-cases :
    (s : Store) (k : ℕ) (name : Text)
    → ((rename_topic k name s).1 ≡ s)
      ⊎ ((other_has_name k (normalize_topic_name name) s.topics ≡ false)
          × ((rename_topic k name s).1
              ≡ record s { topics = set_name k (normalize_topic_name name) s.topics }))
unfolding rename_topic update_name
rename_topic-cases s k name = ground (arith, find_row-contains k s.topics)

-- Renaming a topic keeps the forest.
pub rename_topic-IsValid :
    (s : Store) (k : ℕ) (name : Text) → IsValid s → IsValid (rename_topic k name s).1
rename_topic-IsValid s k name v = elim (rename_topic-cases s k name) [
  | inl same ↦ rw same v
  | inr (new, renamed) ↦ rw renamed (set_name-IsForest s.topics s.last_id k _ v)
]
