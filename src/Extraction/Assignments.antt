-- ===== src/Extraction/Assignments.antt =====
-- A validated topic decision picks a topic or proposes one, and applying such decisions never fails
-- the assertion that relies on it.
use mouseion.Prelude.{
  ℕ, ◌≡◌, ◌≢◌, refl, ap, subst, ◌⊎◌, inl, inr, true, Option, none, some, List, [], ◌∷◌, arith, All,
  is_some, is_empty, Option-cases, Bool-cases,
}
use mouseion.Text.{Text}
use mouseion.Effect.{Result, ok, err, pure, transaction, ◌>>=◌}
use mouseion.Taxonomy.Store.{
  Store, Fault, TopicRow, topic_not_found, name_conflict, topic_cycle, merge_self, nothing_selected,
  not_assigned, assertion, empty_name, integrity, Db, insert_topic, insert_or_ignore, find_row,
}
use mouseion.Exam.Schema.{cons_valid}
use mouseion.Taxonomy.Lookup.{normalize_topic_name, find_topic_by_name, list_topics}
use mouseion.Taxonomy.Create.{
  TopicAssignment, Applying, lost_race, get_or_create_topic, pick, took, resolve_parent, propose,
  apply_one, apply_all, link_all, record_links, start_applying, apply_steps,
  apply_topic_assignments,
}
use mouseion.Extraction.{clean_name, exactly_one, validate_assignment, validate_all}

-- A decision picks a topic and nothing else, or proposes a name.
abbrev pub OneOf : TopicAssignment → Type 0
OneOf t =
    ((is_some t.existing_topic_id ≡ true) × (t.new_topic_name ≡ none) × (t.parent ≡ none))
    ⊎ ((t.existing_topic_id ≡ none) × (is_some t.new_topic_name ≡ true))

exactly_one-OneOf : (raw t : TopicAssignment) → exactly_one raw ≡ some t → OneOf t
exactly_one-OneOf raw t h = go raw.existing_topic_id raw.new_topic_name raw.parent h
  where
    go :
        (e : Option ℕ) (n : Option Text) (p : Option ℕ)
        → exactly_one (record { existing_topic_id = e; new_topic_name = n; parent = p }) ≡ some t
        → OneOf t
    go (some k) (some n) p h = cc
    go none none p h = cc
    go (some k) none none h = inl (ground (arith, h), ground (arith, h), ground (arith, h))
    go (some k) none (some p) h = inl (ground (arith, h), ground (arith, h), ground (arith, h))
    go none (some n) p h = inr (ground (arith, h), ground (arith, h))

-- A decision that validates picks a topic, with no name and no parent, or proposes a name.
pub validate_assignment-OneOf :
    (raw t : TopicAssignment) → validate_assignment raw ≡ some t → OneOf t
unfolding validate_assignment
validate_assignment-OneOf raw t h = elim (Option-cases (clean_name raw.new_topic_name)) [
  | inl refused ↦ cc (rw (refused, validate_assignment) at h)
  | inr (name, fine) ↦
      exactly_one-OneOf (record raw { new_topic_name = name }) t
        (rw (fine, validate_assignment) at h)
]

cons_valid-All :
    {A : Type 0} (P : A → Type 0) (o : Option A) (rest : Option (List A)) (ts : List A)
    → ((a : A) → o ≡ some a → P a)
    → ((l : List A) → rest ≡ some l → All P l)
    → cons_valid o rest ≡ some ts
    → All P ts
cons_valid-All P none rest ts first others h = cc
cons_valid-All P (some a) none ts first others h = cc
cons_valid-All P (some a) (some l) ts first others h =
    subst (All P) (some_inj (a ∷ l) ts h) (first a refl, others l refl)
  where
    some_inj : {B : Type 0} (x y : B) → Path (Option B) (some x) (some y) → x ≡ y
    some_inj x y e = ap (λ o. elim o [ none ↦ x | some z ↦ z ]) e

validate_all-OneOf : (raw ts : List TopicAssignment) → validate_all raw ≡ some ts → All OneOf ts
validate_all-OneOf [] [] h = tt
validate_all-OneOf [] (t ∷ ts) h = cc
validate_all-OneOf (r ∷ raw) ts h =
    cons_valid-All OneOf (validate_assignment r) (validate_all raw) ts (validate_assignment-OneOf r)
      (validate_all-OneOf raw) h

err_inj : {E A : Type 0} (x y : E) → Path (Result E A) (err x) (err y) → x ≡ y
err_inj x y e = ap (λ r. elim r [ ok a ↦ x | err z ↦ z ]) e

-- Applied decisions raise no AssertionError.
abbrev NoAssert : {A : Type 0} → Db A → Type 0
NoAssert m = (s : Store) (e : Fault) → (m s).0 ≡ err e → e ≢ assertion

module _ {A B : Type 0} where
  NoAssert-bind :
      (m : Db A) (f : A → Db B) → NoAssert m → ((a : A) → NoAssert (f a)) → NoAssert (m >>= f)
  NoAssert-bind m f hm hf s e = go (m s) (λ x h. hm s x h)
    where
      go :
          (p : Result Fault A × Store)
          → ((x : Fault) → p.0 ≡ err x → x ≢ assertion)
          → (elim p.0 as (λ _. Result Fault B × Store) [ ok a ↦ f a p.1 | err x ↦ (err x, p.1) ]).0
            ≡ err e
          → e ≢ assertion
      go (ok a, s') g h = hf a s' e h
      go (err x, s') g h = g e (ap err (err_inj x e h))

NoAssert-transaction : {A : Type 0} (m : Db A) → NoAssert m → NoAssert (transaction m)
NoAssert-transaction {A = A} m hm s e = go (m s) (λ x h. hm s x h)
  where
    go :
        (p : Result Fault A × Store)
        → ((x : Fault) → p.0 ≡ err x → x ≢ assertion)
        → (elim p.0 as (λ _. Result Fault A × Store) [ ok a ↦ (ok a, p.1) | err x ↦ (err x, s) ]).0
          ≡ err e
        → e ≢ assertion
    go (ok a, s') g h = cc
    go (err x, s') g h = g e h

insert_topic-NoAssert : (name : Text) (parent : Option ℕ) → NoAssert (insert_topic name parent)
unfolding insert_topic
insert_topic-NoAssert name parent s e h = λ bad. ground (arith, h, bad)

insert_or_ignore-NoAssert : (p t : ℕ) → NoAssert (insert_or_ignore p t)
unfolding insert_or_ignore
insert_or_ignore-NoAssert p t s e h = λ bad. ground (arith, h, bad)

lost_race-NoAssert :
    (clean : Text) (parent : Option ℕ) (r : Result Fault ℕ × Store)
    → ((x : Fault) → r.0 ≡ err x → x ≢ assertion)
    → (e : Fault) → (lost_race clean parent r).0 ≡ err e
    → e ≢ assertion
lost_race-NoAssert clean parent (ok id, s) g e h = cc
lost_race-NoAssert clean parent (err integrity, s) g e h =
    elim (Option-cases (find_topic_by_name s clean)) [
      | inl gone ↦ λ bad. cc (rw (gone, lost_race) at h, bad)
      | inr (t, there) ↦ λ bad. cc (rw (there, lost_race) at h)
    ]
lost_race-NoAssert clean parent (err (topic_not_found k), s) g e h = g e (ap err (err_inj _ e h))
lost_race-NoAssert clean parent (err (name_conflict n), s) g e h = g e (ap err (err_inj _ e h))
lost_race-NoAssert clean parent (err (topic_cycle j k), s) g e h = g e (ap err (err_inj _ e h))
lost_race-NoAssert clean parent (err empty_name, s) g e h = g e (ap err (err_inj _ e h))
lost_race-NoAssert clean parent (err merge_self, s) g e h = g e (ap err (err_inj _ e h))
lost_race-NoAssert clean parent (err nothing_selected, s) g e h = g e (ap err (err_inj _ e h))
lost_race-NoAssert clean parent (err not_assigned, s) g e h = g e (ap err (err_inj _ e h))
lost_race-NoAssert clean parent (err assertion, s) g e h = g e (ap err (err_inj _ e h))

get_or_create_topic-NoAssert :
    (race : Store → Store) (name : Text) (parent : Option ℕ)
    → NoAssert (get_or_create_topic race name parent)
unfolding get_or_create_topic
get_or_create_topic-NoAssert race name parent s e h =
    let clean : Text = normalize_topic_name name in
    elim (Bool-cases (is_empty clean)) [
      | inl blank ↦ λ bad. cc (rw (blank, get_or_create_topic) at h, bad)
      | inr ink ↦ elim (Option-cases (find_topic_by_name s clean)) [
        | inr (t, there) ↦ λ bad. cc (rw (ink, there, get_or_create_topic) at h)
        | inl gone ↦
            lost_race-NoAssert clean parent (insert_topic clean parent (race s))
              (λ x. insert_topic-NoAssert clean parent (race s) x) e
              (rw (ink, gone, get_or_create_topic) at h)
      ]
    ]

pick-NoAssert : (k : ℕ) (o : Option TopicRow) (a : Applying) → NoAssert (pick k o a)
pick-NoAssert k none a s e h = cc
pick-NoAssert k (some t) a s e h = cc

apply_one-NoAssert : (t : TopicAssignment) (a : Applying) → OneOf t → NoAssert (apply_one t a)
unfolding apply_one propose
apply_one-NoAssert t a one s e = go t.existing_topic_id t.new_topic_name t.parent one
  where
    go :
        (k : Option ℕ) (n : Option Text) (p : Option ℕ)
        → OneOf (record { existing_topic_id = k; new_topic_name = n; parent = p })
        → (apply_one (record { existing_topic_id = k; new_topic_name = n; parent = p }) a s).0
          ≡ err e
        → e ≢ assertion
    go (some k) n p w h = pick-NoAssert k (find_row k a.known) a s e h
    go none (some n) p w h =
        NoAssert-bind (get_or_create_topic (λ x. x) n (resolve_parent p n a).0)
          (took (resolve_parent p n a).1)
          (get_or_create_topic-NoAssert (λ x. x) n (resolve_parent p n a).0) (λ found s' e' h'. cc)
          s e h
    go none none p (inl (picks, rest, alone)) h = cc
    go none none p (inr (new, named)) h = cc

apply_all-NoAssert :
    (ts : List TopicAssignment) (a : Applying) → All OneOf ts → NoAssert (apply_all ts a)
unfolding apply_all
apply_all-NoAssert [] a all = λ s e h. cc
apply_all-NoAssert (t ∷ ts) a (one, all) =
    NoAssert-bind (apply_one t a) (apply_all ts) (apply_one-NoAssert t a one)
      (λ a'. apply_all-NoAssert ts a' all)

link_all-NoAssert : (p : ℕ) (ts : List ℕ) → NoAssert (link_all p ts)
unfolding link_all
link_all-NoAssert p [] = λ s e h. cc
link_all-NoAssert p (t ∷ ts) =
    NoAssert-bind (insert_or_ignore p t) (λ _. link_all p ts) (insert_or_ignore-NoAssert p t)
      (λ _. link_all-NoAssert p ts)

-- Applying topic decisions that validated raises no AssertionError, whatever the store: what the
-- assertion of `apply_topic_assignments` says holds of every decision that reaches it.
pub apply_topic_assignments-validated :
    (paper : ℕ) (raw ts : List TopicAssignment) (s : Store) (e : Fault)
    → validate_all raw ≡ some ts
    → (apply_topic_assignments paper ts s).0 ≡ err e
    → e ≢ assertion
unfolding apply_topic_assignments apply_steps record_links
apply_topic_assignments-validated paper raw ts s e valid =
    NoAssert-transaction (apply_steps paper ts)
      (λ s'.
        NoAssert-bind (apply_all ts (start_applying (list_topics s'))) (record_links paper)
          (apply_all-NoAssert ts (start_applying (list_topics s'))
            (validate_all-OneOf raw ts valid))
          (λ a.
            NoAssert-bind (link_all paper a.result.topic_ids) (λ _. pure a.result)
              (link_all-NoAssert paper a.result.topic_ids) (λ _ s'' e' h. cc))
          s')
      s e
