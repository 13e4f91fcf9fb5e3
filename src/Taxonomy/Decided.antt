-- ===== src/Taxonomy/Decided.antt =====
-- Every topic decision is applied or dropped: none stops the loop of `apply_topic_assignments`.
use mouseion.Prelude.{
  ℕ, ◌+◌, ◌≡◌, refl, ap, sym, ◌⊎◌, ◌∙◌, inl, inr, Bool, true, false, ◌||◌, Option, none, some, List,
  [], ◌∷◌, ◌++◌, arith, is_empty, is_some, Bool-cases, Option-cases,
}
use mouseion.Prelude.Keys.{contains, contains-append}
use mouseion.Text.{Text}
use mouseion.Effect.{ok, bind_ok}
use mouseion.Taxonomy.Store.{
  TopicRow, Store, Db, ids, find_row, find_name, parent_exists, insert_topic,
}
use mouseion.Taxonomy.Lookup.{
  normalize_topic_name, normalize_topic_name-idempotent, find_topic_by_name,
}
use mouseion.Taxonomy.Create.{
  TopicAssignment, Applying, unknown_topic, unknown_parent, get_or_create_topic, add_topic, drop,
  reuse, remember, resolve_parent, took, pick, propose, apply_one, apply_all,
}
use mouseion.Taxonomy.Edit.Tables.{contains-append_row}
use mouseion.Taxonomy.Edit.Invariant.{find_row-contains}

-- The topics that the loop knows, and those that it took, are in the table.
abbrev pub Good : Store → Applying → Type 0
Good s a =
    ((c : ℕ) → contains c (ids a.known) ≡ true → contains c (ids s.topics) ≡ true)
    × ((c : ℕ) → contains c a.result.topic_ids ≡ true → contains c (ids s.topics) ≡ true)

-- The call returns, and changes nothing but the topics.
abbrev pub Goes : Db Applying → Store → Type 0
Goes m s =
    (a : Applying) × (s' : Store) × (m s ≡ (ok a, s'))
    × Good s' a
    × (s'.papers ≡ s.papers)
    × (s'.links ≡ s.links)

find_row-member :
    (k : ℕ) (ts : List TopicRow) (t : TopicRow)
    → find_row k ts ≡ some t
    → contains t.id (ids ts) ≡ true
find_row-member k [] t e = cc
find_row-member k (u ∷ us) t e = ground (arith, e, find_row-member k us t)

find_name-member :
    (name : Text) (ts : List TopicRow) (t : TopicRow)
    → find_name name ts ≡ some t
    → contains t.id (ids ts) ≡ true
find_name-member name [] t e = cc
find_name-member name (u ∷ us) t e = ground (arith, e, find_name-member name us t)

Good-add_topic :
    (s : Store) (t : TopicRow) (a : Applying)
    → contains t.id (ids s.topics) ≡ true
    → Good s a
    → Good s (add_topic t a)
Good-add_topic s t a there (known, took_) = elim (Bool-cases (contains t.id a.seen)) [
  | inl old ↦ rw old (known, took_)
  | inr new ↦
      rw new (known, λ c h. member c (sym (contains-append c a.result.topic_ids (t.id ∷ [])) ∙ h))
]
  where
    member :
        (c : ℕ)
        → (contains c a.result.topic_ids || contains c (t.id ∷ [])) ≡ true
        → contains c (ids s.topics) ≡ true
    member c h = elim (Bool-cases (contains c a.result.topic_ids)) [
      | inl old ↦ took_ c old
      | inr new ↦ ground (arith, h, new, there)
    ]

Good-remember :
    (s : Store) (t : TopicRow) (b : Bool) (a : Applying)
    → contains t.id (ids s.topics) ≡ true
    → Good s a
    → Good s (remember (t, b) a)
Good-remember s t true a there (known, took_) = (λ c h. ground (arith, h, there, known c), took_)
Good-remember s t false a there (known, took_) = (λ c h. ground (arith, h, there, known c), took_)

pick-Goes : (k : ℕ) (a : Applying) (s : Store) → Good s a → Goes (pick k (find_row k a.known) a) s
pick-Goes k a s g = elim (Option-cases (find_row k a.known)) [
  | inl missing ↦ rw missing (drop (unknown_topic k) a, s, refl, g, refl, refl)
  | inr (t, found) ↦ rw found (
    add_topic t (reuse t a),
    s,
    refl,
    Good-add_topic s t (reuse t a) (g.0 t.id (find_row-member k a.known t found)) g,
    refl,
    refl,
  )
]

-- The parent that is used is there.
resolve_parent-Good :
    (parent : Option ℕ) (name : Text) (a : Applying) (s : Store)
    → Good s a
    → (parent_exists (resolve_parent parent name a).0 s.topics ≡ true)
      × Good s (resolve_parent parent name a).1
resolve_parent-Good none name a s g = (refl, g)
resolve_parent-Good (some p) name a s g = go (find_row p a.known) refl
  where
    resolved : Option TopicRow → Option ℕ × Applying
    resolved o = elim o [ none ↦ (none, drop (unknown_parent p name) a) | some t ↦ (some p, a) ]

    go :
        (o : Option TopicRow)
        → find_row p a.known ≡ o
        → (parent_exists (resolved o).0 s.topics ≡ true) × Good s (resolved o).1
    go none e = (refl, g)
    go (some t) e = (g.0 p (ground (arith, find_row-contains p a.known, e)), g)

-- A name that is not blank, under a parent that is there, is found or made.
abbrev Found : Text → Option ℕ → Store → Type 0
Found name parent s =
    (t : TopicRow) × (b : Bool) × (s' : Store) × (get_or_create_topic (λ x. x) name parent s
      ≡ (ok (t, b), s'))
    × (contains t.id (ids s'.topics) ≡ true)
    × ((c : ℕ) → contains c (ids s.topics) ≡ true → contains c (ids s'.topics) ≡ true)
    × (s'.papers ≡ s.papers)
    × (s'.links ≡ s.links)

get_or_create_topic-Found :
    (name : Text) (parent : Option ℕ) (s : Store)
    → is_empty (normalize_topic_name name) ≡ false
    → parent_exists parent s.topics ≡ true
    → Found name parent s
unfolding get_or_create_topic insert_topic
get_or_create_topic-Found name parent s ink there =
    elim (Option-cases (find_topic_by_name s (normalize_topic_name name))) [
      | inr (t, found) ↦ (
        t,
        false,
        s,
        rw (ink, found, get_or_create_topic) refl,
        find_name-member _ s.topics t found,
        λ c h. h,
        refl,
        refl,
      )
      | inl missing ↦
          let row : TopicRow = record {
            id = s.last_id + 1;
            name = normalize_topic_name name;
            parent_id = parent;
          } in
          let free : find_name (normalize_topic_name name) s.topics ≡ none =
            sym (ap (λ n. find_name n s.topics) (normalize_topic_name-idempotent name)) ∙ missing in
          (
            row,
            true,
            record s { topics = s.topics ++ row ∷ []; last_id = s.last_id + 1 },
            rw (ink, missing, free, there, get_or_create_topic, insert_topic) refl,
            ground (arith, contains-append_row row row.id s.topics),
            λ c h. ground (arith, h, contains-append_row row c s.topics),
            refl,
            refl,
          )
    ]

-- A decision that can be applied: it picks a topic, or proposes a name that is not blank.
abbrev pub Ready : TopicAssignment → Type 0
Ready t =
    (is_some t.existing_topic_id ≡ true)
    ⊎ ((name : Text) × (t.new_topic_name ≡ some name)
        × (is_empty (normalize_topic_name name) ≡ false))

propose-Goes :
    (name : Text) (parent : Option ℕ) (a : Applying) (s : Store)
    → is_empty (normalize_topic_name name) ≡ false
    → Good s a
    → Goes (propose (some name) parent a) s
unfolding propose
propose-Goes name parent a s ink g =
    let a' : Applying = (resolve_parent parent name a).1 in
    let p : Option ℕ = (resolve_parent parent name a).0 in
    let (there, g') = resolve_parent-Good parent name a s g in
    let (t, b, s', made, here, grows, papers, links) =
      get_or_create_topic-Found name p s ink there in
    (
      add_topic t (remember (t, b) a'),
      s',
      bind_ok (get_or_create_topic (λ x. x) name p) (took a') s s' (t, b) made,
      Good-add_topic s' t (remember (t, b) a') here
          (Good-remember s' t b a' here (λ c h. grows c (g'.0 c h), λ c h. grows c (g'.1 c h))),
      papers,
      links,
    )

apply_one-Goes :
    (t : TopicAssignment) (a : Applying) (s : Store) → Ready t → Good s a → Goes (apply_one t a) s
unfolding apply_one
apply_one-Goes t a s ready g = elim (Option-cases t.existing_topic_id) [
  | inr (k, picks) ↦ rw (picks, apply_one) (pick-Goes k a s g)
  | inl new ↦ elim ready [
    | inl picks ↦ cc (new, picks)
    | inr (name, named, ink) ↦ rw (new, named, apply_one) (propose-Goes name t.parent a s ink g)
  ]
]

abbrev pub AllReady : List TopicAssignment → Type 0
AllReady [] = Unit
AllReady (t ∷ ts) = Ready t × AllReady ts

pub apply_all-Goes :
    (ts : List TopicAssignment) (a : Applying) (s : Store)
    → AllReady ts
    → Good s a
    → Goes (apply_all ts a) s
unfolding apply_all
apply_all-Goes [] a s ready g = (a, s, refl, g, refl, refl)
apply_all-Goes (t ∷ ts) a s (ready, more) g =
    let (a1, s1, e1, g1, p1, l1) = apply_one-Goes t a s ready g in
    let (a2, s2, e2, g2, p2, l2) = apply_all-Goes ts a1 s1 more g1 in
    (a2, s2, bind_ok (apply_one t a) (apply_all ts) s s1 a1 e1 ∙ e2, g2, p2 ∙ p1, l2 ∙ l1)
