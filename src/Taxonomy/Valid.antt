-- ===== src/Taxonomy/Valid.antt =====
-- A valid taxonomy, and that every operation keeps it valid.
use mouseion.Prelude.{
  ℕ, ◌+◌, ◌≤◌, ◌≡◌, inl, inr, Bool, true, false, ◌||◌, Option, none, some, List, [], ◌∷◌, ◌++◌,
  arith, ◌==◌, if◌then◌else◌, Bool-cases, Option-cases,
}
use mouseion.Prelude.Keys.{contains}
use mouseion.Text.{Text}
use mouseion.Effect.{pure, Keeps, Keeps-bind, Keeps-transaction}
use mouseion.Taxonomy.Store.{
  TopicRow, Store, find_row, ids, parent_exists, set_parent, insert_or_ignore,
}
use mouseion.Taxonomy.Lookup.{normalize_topic_name, list_topics}
use mouseion.Taxonomy.Create.{
  TopicAssignment, Applying, get_or_create_topic, propose, apply_one, apply_all, link_all,
  apply_topic_assignments, resolve_parent, took, pick, start_applying, apply_steps, record_links,
}
use mouseion.Taxonomy.Create.Names.{
  UniqueNames, append-UniqueNames, set_parent-UniqueNames, set_name-UniqueNames,
  move_children-UniqueNames, remove_row-UniqueNames,
}
use mouseion.Taxonomy.Create.Outcome.{
  failed, existing, lost, created, new_row, get_or_create_topic-Outcome,
}
use mouseion.Taxonomy.Walk.{descendant_ids}
use mouseion.Taxonomy.Edit.Tables.{contains-append_row, append_row-UniqueIds, parent_of-append_row}
use mouseion.Taxonomy.Edit.Forest.{Rooted, root, under, RootedParent, Rooted-child, Rooted-known}
use mouseion.Taxonomy.Edit.{rename_topic, reparent_topic, merge_topics, delete_topic}
use mouseion.Taxonomy.Edit.Invariant.{
  IsForest, IsValid, reparent_topic-IsValid, rename_topic-IsValid, reparent_topic-cases,
  reparent_topic-root_cases, rename_topic-cases,
}
use mouseion.Taxonomy.Edit.Merging.{
  merge_topics-IsValid, delete_topic-IsValid, merge_topics-cases, delete_topic-cases,
  merge_steps-cases, insert_or_ignore-topics,
}

-- Unique ids, a forest of parents, and names that are unique up to case.
pub record IsTaxonomy (s : Store) : Type 0 where
  pub forest : IsValid s
  pub names : UniqueNames s.topics

new_id-fresh :
    (ts : List TopicRow) (last : ℕ) → IsForest ts last → contains (last + 1) (ids ts) ≡ false
new_id-fresh ts last f = elim (Bool-cases (contains (last + 1) (ids ts))) [
  | inl old ↦ absurd (omega (arith, f.bounded (last + 1) old))
  | inr new ↦ new
]

pub append-IsForest :
    (ts : List TopicRow) (last : ℕ) (name : Text) (parent : Option ℕ)
    → IsForest ts last
    → parent_exists parent ts ≡ true
    → IsForest (ts ++ record { id = last + 1; name = name; parent_id = parent } ∷ []) (last + 1)
append-IsForest ts last name parent f h = record {
  unique = append_row-UniqueIds new ts fresh f.unique;
  bounded = λ c m. bound c (rw (contains-append_row new c ts) at m);
  rooted = λ c m. rooted c (rw (contains-append_row new c ts) at m);
}
  where
    new : TopicRow
    new = record { id = last + 1; name = name; parent_id = parent }

    fresh : contains (last + 1) (ids ts) ≡ false
    fresh = new_id-fresh ts last f

    bound : (c : ℕ) → (contains c (ids ts) || (last + 1) == c) ≡ true → c ≤ last + 1
    bound c m = ground (arith, f.bounded c)

    kept : {c : ℕ} → Rooted ts c → Rooted (ts ++ new ∷ []) c
    kept (root {c = c} e) =
        root
          (ground (arith, parent_of-append_row new c ts, Rooted-known {ts = ts} {c = c} (root e)))
    kept (under {c = c} {p = p} e r) =
        under
          (ground
            (arith, parent_of-append_row new c ts, Rooted-known {ts = ts} {c = c} (under e r)))
          (kept r)

    parent_rooted : (p : Option ℕ) → parent_exists p ts ≡ true → RootedParent (ts ++ new ∷ []) p
    parent_rooted none e = tt
    parent_rooted (some p) e = kept (f.rooted p e)

    rooted : (c : ℕ) → (contains c (ids ts) || (last + 1) == c) ≡ true → Rooted (ts ++ new ∷ []) c
    rooted c m = elim (Bool-cases (contains c (ids ts))) [
      | inl old ↦ kept (f.rooted c old)
      | inr other ↦
          Rooted-child parent (ground (arith, parent_of-append_row new c ts))
            (parent_rooted parent h)
    ]

-- If what another process writes meanwhile is valid, `get_or_create_topic` leaves a valid taxonomy.
pub get_or_create_topic-IsTaxonomy :
    (race : Store → Store) (name : Text) (parent : Option ℕ) (s : Store)
    → IsTaxonomy s
    → IsTaxonomy (race s)
    → IsTaxonomy (get_or_create_topic race name parent s).1
unfolding new_row
get_or_create_topic-IsTaxonomy race name parent s v w =
    elim (get_or_create_topic-Outcome race name parent s) [
      | failed e s' which eq ↦ rw eq (elim which [ inl same ↦ rw same v | inr same ↦ rw same w ])
      | existing t e eq ↦ rw eq v
      | lost t e eq ↦ rw eq w
      | created e p eq ↦ rw eq (record {
        forest =
            append-IsForest (race s).topics (race s).last_id (normalize_topic_name name) parent
              w.forest p;
        names = append-UniqueNames _ (race s).topics e w.names;
      })
    ]

-- Moving a topic keeps the taxonomy valid, whether the guards let it pass or not.
pub reparent_topic-IsTaxonomy :
    (s : Store) (k : ℕ) (parent : Option ℕ)
    → IsTaxonomy s
    → IsTaxonomy (reparent_topic k parent s).1
reparent_topic-IsTaxonomy s k none v = record {
  forest = reparent_topic-IsValid s k none v.forest;
  names = elim (reparent_topic-root_cases s k) [
    | inl same ↦ rw same v.names
    | inr (known, after) ↦ rw after (set_parent-UniqueNames k none s.topics v.names)
  ];
}
reparent_topic-IsTaxonomy s k (some p) v = record {
  forest = reparent_topic-IsValid s k (some p) v.forest;
  names = elim (reparent_topic-cases s k p) [
    | inl same ↦ rw same v.names
    | inr (known, known', out, after) ↦
        rw after (set_parent-UniqueNames k (some p) s.topics v.names)
  ];
}

-- Renaming a topic keeps the taxonomy valid, whether the guards let it pass or not.
pub rename_topic-IsTaxonomy :
    (s : Store) (k : ℕ) (name : Text) → IsTaxonomy s → IsTaxonomy (rename_topic k name s).1
rename_topic-IsTaxonomy s k name v = record {
  forest = rename_topic-IsValid s k name v.forest;
  names = elim (rename_topic-cases s k name) [
    | inl same ↦ rw same v.names
    | inr (new, after) ↦
        rw after
          (set_name-UniqueNames k (normalize_topic_name name) s.topics v.forest.unique new v.names)
  ];
}

-- Deleting a topic keeps the taxonomy valid.
pub delete_topic-IsTaxonomy : (s : Store) (k : ℕ) → IsTaxonomy s → IsTaxonomy (delete_topic k s).1
delete_topic-IsTaxonomy s k v = record {
  forest = delete_topic-IsValid s k v.forest;
  names = elim (delete_topic-cases s k) [
    | inl same ↦ rw same v.names
    | inr (t, found, topics, last) ↦
        rw topics
          (remove_row-UniqueNames k _ (move_children-UniqueNames k t.parent_id s.topics v.names))
  ];
}

-- Merging topics keeps the taxonomy valid, also where the target lay below the source.
pub merge_topics-IsTaxonomy :
    (s : Store) (source target : ℕ) → IsTaxonomy s → IsTaxonomy (merge_topics source target s).1
merge_topics-IsTaxonomy s source target v = record {
  forest = merge_topics-IsValid s source target v.forest;
  names = elim (merge_topics-cases s source target) [
    | inl same ↦ rw same v.names
    | inr (t, x, found, ht, ne, done, after) ↦
        rw (after, (merge_steps-cases s source target t.parent_id x done).0)
          (remove_row-UniqueNames source _ (
            move_children-UniqueNames source (some target) _
              (spliced t (contains target (descendant_ids s source false)))))
  ];
}
  where
    spliced :
        (t : TopicRow) (b : Bool)
        → UniqueNames (if b then set_parent target t.parent_id s.topics else s.topics)
    spliced t true = set_parent-UniqueNames target t.parent_id s.topics v.names
    spliced t false = v.names

propose-IsTaxonomy :
    (name : Option Text) (parent : Option ℕ) (a : Applying)
    → Keeps IsTaxonomy (propose name parent a)
unfolding propose
propose-IsTaxonomy none parent a = λ s v. v
propose-IsTaxonomy (some name) parent a =
    let pa = resolve_parent parent name a in
    Keeps-bind IsTaxonomy (get_or_create_topic (λ s. s) name pa.0) (took pa.1)
      (λ s v. get_or_create_topic-IsTaxonomy (λ s. s) name pa.0 s v v) (λ found s v. v)

pick-IsTaxonomy : (k : ℕ) (o : Option TopicRow) (a : Applying) → Keeps IsTaxonomy (pick k o a)
pick-IsTaxonomy k none a s v = v
pick-IsTaxonomy k (some t) a s v = v

apply_one-IsTaxonomy : (t : TopicAssignment) (a : Applying) → Keeps IsTaxonomy (apply_one t a)
unfolding apply_one
apply_one-IsTaxonomy t a = elim (Option-cases t.existing_topic_id) [
  | inl new ↦ λ s v. rw (new, apply_one) (propose-IsTaxonomy t.new_topic_name t.parent a s v)
  | inr (k, old) ↦ λ s v. rw (old, apply_one) (pick-IsTaxonomy k (find_row k a.known) a s v)
]

apply_all-IsTaxonomy :
    (ts : List TopicAssignment) (a : Applying) → Keeps IsTaxonomy (apply_all ts a)
unfolding apply_all
apply_all-IsTaxonomy [] a = λ s v. v
apply_all-IsTaxonomy (t ∷ ts) a =
    Keeps-bind IsTaxonomy (apply_one t a) (apply_all ts) (apply_one-IsTaxonomy t a)
      (apply_all-IsTaxonomy ts)

pub link-IsTaxonomy : (p t : ℕ) → Keeps IsTaxonomy (insert_or_ignore p t)
link-IsTaxonomy p t s v =
    let h = insert_or_ignore-topics p t s in
    record { forest = rw (h.0, h.1) v.forest; names = rw h.0 v.names }

link_all-IsTaxonomy : (p : ℕ) (ts : List ℕ) → Keeps IsTaxonomy (link_all p ts)
unfolding link_all
link_all-IsTaxonomy p [] = λ s v. v
link_all-IsTaxonomy p (t ∷ ts) =
    Keeps-bind IsTaxonomy (insert_or_ignore p t) (λ _. link_all p ts) (link-IsTaxonomy p t)
      (λ _. link_all-IsTaxonomy p ts)

apply_steps-IsTaxonomy :
    (paper : ℕ) (ts : List TopicAssignment) → Keeps IsTaxonomy (apply_steps paper ts)
unfolding apply_steps record_links
apply_steps-IsTaxonomy paper ts s =
    Keeps-bind IsTaxonomy (apply_all ts (start_applying (list_topics s))) (record_links paper)
      (apply_all-IsTaxonomy ts _)
      (λ a.
        Keeps-bind IsTaxonomy (link_all paper a.result.topic_ids) (λ _. pure a.result)
          (link_all-IsTaxonomy paper a.result.topic_ids) (λ _ s v. v))
      s

-- The topic decisions of an ingest keep the taxonomy valid, whatever the model proposed.
pub apply_topic_assignments-IsTaxonomy :
    (paper : ℕ) (ts : List TopicAssignment) (s : Store)
    → IsTaxonomy s
    → IsTaxonomy (apply_topic_assignments paper ts s).1
unfolding apply_topic_assignments
apply_topic_assignments-IsTaxonomy paper ts =
    Keeps-transaction IsTaxonomy (apply_steps paper ts) (apply_steps-IsTaxonomy paper ts)
