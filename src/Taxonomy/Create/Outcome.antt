-- ===== src/Taxonomy/Create/Outcome.antt =====
-- What creating topics guarantees: the name is found afterwards, a topic that exists is returned
-- untouched, and the tables stay valid.
use mouseion.Prelude.{
  ℕ, ◌+◌, ◌≡◌, refl, ap, ◌⊎◌, inl, inr, Bool, true, false, not, ◌||◌, Option, none, some, [], ◌∷◌,
  ◌++◌, arith, is_empty, Bool-cases, Option-cases,
}
use mouseion.Text.{Text}
use mouseion.Effect.{ok, err}
use mouseion.Taxonomy.Store.{
  TopicRow, Store, Fault, integrity, empty_name, parent_exists, insert_topic,
}
use mouseion.Taxonomy.Lookup.{
  normalize_topic_name, normalize_topic_name-idempotent, find_topic_by_name,
}
use mouseion.Taxonomy.Create.{get_or_create_topic}
use mouseion.Taxonomy.Create.Names.{has_name, find_name-append_self}

module _ (race : Store → Store) (name : Text) (parent : Option ℕ) (s : Store) where
  unfoldable pub new_row : TopicRow
  new_row = record {
    id = (race s).last_id + 1;
    name = normalize_topic_name name;
    parent_id = parent;
  }

  -- The ways in which the call ends.
  pub data Outcome : Type 0 where
    failed :
        (e : Fault) (s' : Store)
        → (s' ≡ s) ⊎ (s' ≡ race s)
        → get_or_create_topic race name parent s ≡ (err e, s')
        → Outcome
    existing :
        (t : TopicRow)
        → find_topic_by_name s name ≡ some t
        → get_or_create_topic race name parent s ≡ (ok (t, false), s)
        → Outcome
    lost :
        (t : TopicRow)
        → find_topic_by_name (race s) name ≡ some t
        → get_or_create_topic race name parent s ≡ (ok (t, false), race s)
        → Outcome
    created :
        has_name (normalize_topic_name name) (race s).topics ≡ false
        → parent_exists parent (race s).topics ≡ true
        → get_or_create_topic race name parent s ≡ (
          ok (new_row, true),
          record (race s) {
            topics = (race s).topics ++ new_row ∷ [];
            last_id = (race s).last_id + 1;
          },
        )
        → Outcome

  after_insert :
      is_empty (normalize_topic_name name) ≡ false
      → find_topic_by_name s (normalize_topic_name name) ≡ none
      → Outcome
  unfolding get_or_create_topic insert_topic new_row
  after_insert ink e1 =
      elim (Bool-cases (
        has_name (normalize_topic_name name) (race s).topics
        || not (parent_exists parent (race s).topics))) [
          | inr fits ↦ created (ground arith) (ground arith) (ground arith)
          | inl clash ↦
              elim (Option-cases (find_topic_by_name (race s) (normalize_topic_name name))) [
                | inl gone ↦ failed integrity (race s) (inr refl) (ground arith)
                | inr (t, e) ↦
                    lost t (ground (arith, normalize_topic_name-idempotent name)) (ground arith)
              ]
        ]

  pub get_or_create_topic-Outcome : Outcome
  unfolding get_or_create_topic
  get_or_create_topic-Outcome = elim (Bool-cases (is_empty (normalize_topic_name name))) [
    | inl blank ↦ failed empty_name s (inl refl) (ground arith)
    | inr ink ↦ elim (Option-cases (find_topic_by_name s (normalize_topic_name name))) [
      | inl missing ↦ after_insert ink missing
      | inr (t, e) ↦
          existing t (ground (arith, normalize_topic_name-idempotent name)) (ground arith)
    ]
  ]

  -- A returned topic is the one that the name finds afterwards.
  pub get_or_create_topic-found :
      (t : TopicRow) (was_created : Bool)
      → (get_or_create_topic race name parent s).0 ≡ ok (t, was_created)
      → find_topic_by_name (get_or_create_topic race name parent s).1 name ≡ some t
  unfolding new_row
  get_or_create_topic-found t was_created h = elim get_or_create_topic-Outcome [
    | failed e s' w eq ↦ cc (h, ap (λ r. r.0) eq)
    | existing u e eq ↦ rw eq (ground (arith, e, ap (λ r. r.0) eq))
    | lost u e eq ↦ rw eq (ground (arith, e, ap (λ r. r.0) eq))
    | created e p eq ↦
        rw eq (ground (arith, find_name-append_self new_row (race s).topics e, ap (λ r. r.0) eq))
  ]
