-- ===== src/Taxonomy/Edit/Merging.antt =====
-- `delete_topic` and `merge_topics` keep the forest.
use mouseion.Prelude.{
  ℕ, ◌≡◌, ◌≢◌, refl, ◌⊎◌, ◌∙◌, ap, inl, inr, true, false, not, ◌&&◌, Option, some, List, [], ◌∷◌,
  arith, ◌==◌, if◌then◌else◌, Bool-cases, Option-cases,
}
use mouseion.Prelude.Keys.{contains}
use mouseion.Effect.{ok, err, Result-cases}
use mouseion.Taxonomy.Store.{
  TopicRow, Store, ids, set_parent, move_children, find_row, children_count, integrity,
  update_parent, update_children, delete_row, insert_or_ignore, papers_of,
}
use mouseion.Taxonomy.Walk.{descendant_ids}
use mouseion.Taxonomy.Walk.Below.{
  parent_of, Below, here, down, descendant_ids-Below, Below-descendant_ids,
}
use mouseion.Taxonomy.Edit.Tables.{
  contains-set_parent, contains-move_children, move_children-UniqueIds, contains-remove_row,
  remove_row-UniqueIds, parent_of-set_parent,
}
use mouseion.Taxonomy.Edit.Forest.{Rooted, Rooted-parent, no_cycle, Below-trans}
use mouseion.Taxonomy.Edit.Removal.{without, delete-Rooted, absorb-Rooted}
use mouseion.Taxonomy.Edit.Invariant.{
  IsForest, IsValid, find_row-contains, find_row→parent_of, set_parent-IsForest,
}
use mouseion.Taxonomy.Edit.{relink, merge_steps, merge_topics, delete_topic}

contains-without :
    (k c : ℕ) (q : Option ℕ) (ts : List TopicRow)
    → contains c (ids (without k q ts)) ≡ (not (k == c) && contains c (ids ts))
contains-without k c q ts =
    ground (arith, contains-remove_row k c (move_children k q ts), contains-move_children k q c ts)

without-IsForest :
    (ts : List TopicRow) (last k : ℕ) (q : Option ℕ)
    → IsForest ts last
    → ((c : ℕ) → k ≢ c → Rooted ts c → Rooted (without k q ts) c)
    → IsForest (without k q ts) last
without-IsForest ts last k q f keep = record {
  unique = remove_row-UniqueIds k (move_children k q ts) (move_children-UniqueIds k q ts f.unique);
  bounded = λ c h. f.bounded c (old c h);
  rooted = λ c h. keep c (other c h) (f.rooted c (old c h));
}
  where
    old : (c : ℕ) → contains c (ids (without k q ts)) ≡ true → contains c (ids ts) ≡ true
    old c h = ground (arith, contains-without k c q ts)

    other : (c : ℕ) → contains c (ids (without k q ts)) ≡ true → k ≢ c
    other c h = ground (arith, contains-without k c q ts)

update_children-cases :
    (k : ℕ) (p : Option ℕ) (s : Store)
    → (update_children k p s ≡ (err integrity, s))
      ⊎ (update_children k p s
          ≡ (ok (children_count k s.topics), record s { topics = move_children k p s.topics }))
unfolding update_children
update_children-cases k p s = ground arith

pub delete_topic-cases :
    (s : Store) (k : ℕ)
    → ((delete_topic k s).1 ≡ s)
      ⊎ ((t : TopicRow) × (find_row k s.topics ≡ some t)
          × ((delete_topic k s).1.topics ≡ without k t.parent_id s.topics)
          × ((delete_topic k s).1.last_id ≡ s.last_id))
unfolding delete_topic delete_row
delete_topic-cases s k = elim (Option-cases (find_row k s.topics)) [
  | inl missing ↦ inl (ground arith)
  | inr (t, found) ↦ elim (update_children-cases k t.parent_id s) [
    | inl bad ↦ inl (ground arith)
    | inr good ↦ inr (t, found, ground arith, ground arith)
  ]
]

-- Deleting a topic keeps the forest.
pub delete_topic-IsValid : (s : Store) (k : ℕ) → IsValid s → IsValid (delete_topic k s).1
delete_topic-IsValid s k v = elim (delete_topic-cases s k) [
  | inl same ↦ rw same v
  | inr (t, found, topics, last) ↦
      let parent : parent_of s.topics k ≡ some t.parent_id =
        find_row→parent_of k s.topics t found in
      let rooted : Rooted s.topics k = v.rooted k (ground (arith, find_row-contains k s.topics)) in
      rw (topics, last)
        (without-IsForest s.topics s.last_id k t.parent_id v (λ c.
          delete-Rooted s.topics k t.parent_id parent rooted
            (Rooted-parent t.parent_id parent rooted)))
]

pub insert_or_ignore-topics :
    (p t : ℕ) (s : Store)
    → ((insert_or_ignore p t s).1.topics ≡ s.topics)
      × ((insert_or_ignore p t s).1.last_id ≡ s.last_id)
unfolding insert_or_ignore
insert_or_ignore-topics p t s = ground arith

-- Linking papers leaves the topics alone.
pub relink-topics :
    (target : ℕ) (ps : List ℕ) (s : Store)
    → ((relink target ps s).1.topics ≡ s.topics) × ((relink target ps s).1.last_id ≡ s.last_id)
unfolding relink
relink-topics target [] s = (refl, refl)
relink-topics target (p ∷ ps) s = ground (
  arith,
  insert_or_ignore-topics p target s,
  relink-topics target ps (insert_or_ignore p target s).1,
)

-- the table of topics at the end of a merge
abbrev pub merged : Store → ℕ → ℕ → Option ℕ → List TopicRow
merged s source target q = without source (some target) (
    if contains target (descendant_ids s source false)
    then set_parent target q s.topics
    else s.topics)

-- A merge removes the source and keeps every other topic.
pub contains-merged :
    (s : Store) (source target : ℕ) (q : Option ℕ) (c : ℕ)
    → contains c (ids (merged s source target q)) ≡ (not (source == c) && contains c (ids s.topics))
contains-merged s source target q c =
    elim (Bool-cases (contains target (descendant_ids s source false))) [
      | inl below ↦ rw below (
          contains-without source c (some target) (set_parent target q s.topics)
          ∙ rw contains-set_parent refl)
      | inr apart ↦ rw apart (contains-without source c (some target) s.topics)
    ]

pub merge_steps-cases :
    (s : Store) (source target : ℕ) (q : Option ℕ) (x : ℕ × ℕ)
    → (merge_steps source target q s).0 ≡ ok x
    → ((merge_steps source target q s).1.topics ≡ merged s source target q)
      × ((merge_steps source target q s).1.last_id ≡ s.last_id)
unfolding merge_steps update_parent update_children delete_row
merge_steps-cases s source target q x h =
    elim (Bool-cases (contains target (descendant_ids s source false))) [
      | inl below ↦ ground (
        arith,
        relink-topics target (papers_of source s.links)
            (record s { topics = set_parent target q s.topics }),
      )
      | inr apart ↦ ground (arith, relink-topics target (papers_of source s.links) s)
    ]

pub merge_topics-cases :
    (s : Store) (source target : ℕ)
    → ((merge_topics source target s).1 ≡ s)
      ⊎ ((t : TopicRow) × (x : ℕ × ℕ) × (find_row source s.topics ≡ some t)
          × (contains target (ids s.topics) ≡ true)
          × (source ≢ target)
          × ((merge_steps source target t.parent_id s).0 ≡ ok x)
          × ((merge_topics source target s).1 ≡ (merge_steps source target t.parent_id s).1))
unfolding merge_topics
merge_topics-cases s source target = elim (Option-cases (find_row source s.topics)) [
  | inl missing ↦ inl (ground arith)
  | inr (t, found) ↦ elim (Result-cases (merge_steps source target t.parent_id s).0) [
    | inr (e, failed) ↦ inl (ground arith)
    | inl (x, done) ↦ elim (Bool-cases (source == target)) [
      | inl same ↦ inl (ground arith)
      | inr other ↦ elim (Option-cases (find_row target s.topics)) [
        | inl missing ↦ inl (ground arith)
        | inr (u, found_target) ↦ inr (
          t,
          x,
          found,
          ground (arith, find_row-contains target s.topics),
          ground arith,
          done,
          ground arith,
        )
      ]
    ]
  ]
]

-- A target that was below the source is not below it any more once it has taken its place.
spliced-apart :
    (ts : List TopicRow) (k t : ℕ) (q : Option ℕ)
    → k ≢ t
    → contains t (ids ts) ≡ true
    → parent_of ts k ≡ some q
    → Rooted (set_parent t q ts) k
    → Below (set_parent t q ts) k t
    → ⊥
spliced-apart ts k t q ne ht e r here = ne refl
spliced-apart ts k t q ne ht e r (down {b = p} b e') =
    no_cycle p r (ground (arith, parent_of-set_parent t q k ts, parent_of-set_parent t q t ts)) b

merged-IsForest :
    (s : Store) (source target : ℕ) (q : Option ℕ)
    → IsValid s
    → contains source (ids s.topics) ≡ true
    → contains target (ids s.topics) ≡ true
    → source ≢ target
    → parent_of s.topics source ≡ some q
    → IsForest (merged s source target q) s.last_id
merged-IsForest s source target q v hs ht ne e =
    elim (Bool-cases (contains target (descendant_ids s source false))) [
      | inl below ↦
          let b : Below s.topics source target =
            Below-descendant_ids s source target v.unique below in
          let ts : List TopicRow = set_parent target q s.topics in
          let f : IsForest ts s.last_id =
            set_parent-IsForest s.topics s.last_id target q v ht
              (Rooted-parent q e (v.rooted source hs))
              (λ r eq down.
                no_cycle r (v.rooted source hs) (e ∙ ap some eq) (Below-trans b down)) in
          rw below (
            without-IsForest ts s.last_id source (some target) f (λ c.
              absorb-Rooted ts source target (f.rooted target (rw contains-set_parent ht)) (
                spliced-apart s.topics source target q ne ht e
                  (f.rooted source (rw contains-set_parent hs)))))
      | inr apart ↦ rw apart (
          without-IsForest s.topics s.last_id source (some target) v (λ c.
            absorb-Rooted s.topics source target (v.rooted target ht)
              (λ b. cc (apart, descendant_ids-Below s source target v.unique hs ne b))))
    ]

-- Merging one topic into another keeps the forest, also where the target lay below the source.
pub merge_topics-IsValid :
    (s : Store) (source target : ℕ) → IsValid s → IsValid (merge_topics source target s).1
merge_topics-IsValid s source target v = elim (merge_topics-cases s source target) [
  | inl same ↦ rw same v
  | inr (t, x, found, ht, ne, done, after) ↦
      let m = merge_steps-cases s source target t.parent_id x done in
      rw (after, m.0, m.1)
        (merged-IsForest s source target t.parent_id v
          (ground (arith, find_row-contains source s.topics)) ht ne
          (find_row→parent_of source s.topics t found))
]
