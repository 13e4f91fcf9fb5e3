-- ===== src/Taxonomy/Walk/Below.antt =====
-- What `descendant_ids` returns: exactly the topics at or below the given one.
use mouseion.Prelude.{
  ℕ, suc, ◌≡◌, refl, ◌∙◌, ap, ◌≢◌, ◌↔◌, inl, inr, Bool, true, false, Option, none, some, List, [],
  ◌∷◌, ◌++◌, arith, ◌==◌, ==_iff, if◌then◌else◌, length, keep, All, Bool-cases,
}
use mouseion.Prelude.Keys.{contains, unseen-le-length}
use mouseion.Taxonomy.Store.{TopicRow, Store, ids, find_row}
use mouseion.Taxonomy.Lookup.{sort_by_name}
use mouseion.Taxonomy.Sorting.{
  contains-sort_by_name, find_row-sort_by_name, UniqueIds, UniqueIds-sort_by_name,
}
use mouseion.Taxonomy.Walk.{
  children_map, effective_parent, same_key, start_walk, descendant_walk, descendant_ids,
}
use mouseion.Taxonomy.Walk.Loop.{
  AllIn, walk-Closed, walk-Within, walk-ends, walk-out, walk-seen_mono, Closed,
}

-- the parent column of a topic; `none` if there is no such row
abbrev pub parent_of : List TopicRow → ℕ → Option (Option ℕ)
parent_of ts k = elim (find_row k ts) [ none ↦ none | some t ↦ some t.parent_id ]

-- `b` is `a`, or a topic whose chain of parents reaches `a`.
pub data Below (ts : List TopicRow) (a : ℕ) : ℕ → Type 0 where
  here : Below ts a a
  down : {b c : ℕ} → Below ts a b → parent_of ts c ≡ some (some b) → Below ts a c

keep-AllIn :
    (p : TopicRow → Bool) (ks : List ℕ) (ts : List TopicRow) → AllIn ks ts → AllIn ks (keep p ts)
keep-AllIn p ks [] h = tt
keep-AllIn p ks (t ∷ ts) h = elim (Bool-cases (p t)) [
  | inl e ↦ rw e (h.0, keep-AllIn p ks ts h.1)
  | inr e ↦ rw e (keep-AllIn p ks ts h.1)
]

AllIn-weaken : (j : ℕ) (ks : List ℕ) (ts : List TopicRow) → AllIn ks ts → AllIn (j ∷ ks) ts
AllIn-weaken j ks [] h = tt
AllIn-weaken j ks (t ∷ ts) h = (ground arith, AllIn-weaken j ks ts h.1)

AllIn-ids : (ts : List TopicRow) → AllIn (ids ts) ts
AllIn-ids [] = tt
AllIn-ids (t ∷ ts) = (ground arith, AllIn-weaken t.id (ids ts) ts (AllIn-ids ts))

children-known : (ts : List TopicRow) (key : Option ℕ) → AllIn (ids ts) (children_map ts key)
unfolding children_map
children-known ts key = keep-AllIn _ (ids ts) ts (AllIn-ids ts)

pub found→contains :
    (k : ℕ) (ts : List TopicRow) (p : Option ℕ)
    → parent_of ts k ≡ some p
    → contains k (ids ts) ≡ true
found→contains k [] p h = cc
found→contains k (t ∷ ts) p h = ground (arith, found→contains k ts p)

-- What is below an existing topic exists.
pub Below-known :
    {ts : List TopicRow} {a b : ℕ}
    → contains a (ids ts) ≡ true
    → Below ts a b
    → contains b (ids ts) ≡ true
Below-known known here = known
Below-known {ts = ts} known (down {b = b} {c = c} r e) = found→contains c ts (some b) e

-- A row is found by its id in a table of unique ids.
abbrev AllFound : List TopicRow → List TopicRow → Type 0
AllFound ts = All (λ c. find_row c.id ts ≡ some c)

AllFound-weaken :
    (t : TopicRow) (ts us : List TopicRow)
    → contains t.id (ids ts) ≡ false
    → AllIn (ids ts) us
    → AllFound ts us
    → AllFound (t ∷ ts) us
AllFound-weaken t ts [] new m h = tt
AllFound-weaken t ts (c ∷ us) new m h =
    (ground (arith, m.0, h.0), AllFound-weaken t ts us new m.1 h.1)

AllFound-self : (ts : List TopicRow) → UniqueIds ts → AllFound ts ts
AllFound-self [] u = tt
AllFound-self (t ∷ ts) u =
    (ground arith, AllFound-weaken t ts ts u.0 (AllIn-ids ts) (AllFound-self ts u.1))

effective_parent-some :
    (known : List ℕ) (t : TopicRow) (k : ℕ)
    → same_key (effective_parent known t) (some k) ≡ true
    → t.parent_id ≡ some k
effective_parent-some known t k h = ground arith

children-Below :
    (ts : List TopicRow) (a k : ℕ)
    → UniqueIds ts
    → Below ts a k
    → All (λ c. Below ts a c.id) (children_map ts (some k))
unfolding children_map
children-Below ts a k u b = go ts (AllFound-self ts u)
  where
    go :
        (us : List TopicRow)
        → AllFound ts us
        → All
            (λ c. Below ts a c.id)
            (keep (λ t. same_key (effective_parent (ids ts) t) (some k)) us)
    go [] h = tt
    go (c ∷ us) h = elim (Bool-cases (same_key (effective_parent (ids ts) c) (some k))) [
      | inl e ↦ rw e (down b (ground (arith, h.0, effective_parent-some (ids ts) c k e)), go us h.1)
      | inr e ↦ rw e (go us h.1)
    ]

child-seen :
    (seen : List ℕ) (ts : List TopicRow) (k c : ℕ)
    → contains k (ids ts) ≡ true
    → parent_of ts c ≡ some (some k)
    → AllIn seen (children_map ts (some k))
    → contains c seen ≡ true
unfolding children_map
child-seen seen ts k c known h all = go ts h all
  where
    go :
        (us : List TopicRow)
        → parent_of us c ≡ some (some k)
        → AllIn seen (keep (λ t. same_key (effective_parent (ids ts) t) (some k)) us)
        → contains c seen ≡ true
    go [] h all = cc
    go (u ∷ us) h all = elim (Bool-cases (same_key (effective_parent (ids ts) u) (some k))) [
      | inl e ↦
          let both : AllIn seen
              (u ∷ keep (λ t. same_key (effective_parent (ids ts) t) (some k)) us) =
            rw e at all in
          elim (Bool-cases (u.id == c)) [
            | inl same ↦ rw (← (==_iff u.id c).0 same) both.0
            | inr other ↦ go us (ground arith) both.1
          ]
      | inr e ↦ go us (ground arith) (rw e at all)
    ]

length-ids : (ts : List TopicRow) → length (ids ts) ≡ length ts
length-ids [] = refl
length-ids (t ∷ ts) = ap suc (length-ids ts)

module _ (ts : List TopicRow) (a : ℕ) where
  at-start : (k : ℕ) → contains k (a ∷ []) ≡ true → Below ts a k
  at-start k h = rw (← (==_iff a k).0 (ground arith)) here

  ends : (inc : Bool) → (descendant_walk ts a inc).frontier ≡ []
  unfolding descendant_walk
  ends inc =
      walk-ends (λ k. children_map ts (some k)) (ids ts) (λ k. children-known ts (some k))
        (suc (length ts)) (start_walk a inc)
        (omega (arith, unseen-le-length (ids ts) (a ∷ []), length-ids ts))

  descendant_walk_sound :
      UniqueIds ts
      → (inc : Bool) (k : ℕ) → contains k (descendant_walk ts a inc).seen ≡ true
      → Below ts a k
  unfolding descendant_walk
  descendant_walk_sound u inc =
      (walk-Within (λ k. children_map ts (some k)) (Below ts a) (λ k. children-Below ts a k u)
        (suc (length ts)) (start_walk a inc) (at-start, at-start)).0

  closed : (inc : Bool) → Closed (λ k. children_map ts (some k)) (descendant_walk ts a inc)
  unfolding descendant_walk
  closed inc =
      walk-Closed (λ k. children_map ts (some k)) (suc (length ts)) (start_walk a inc)
        (λ k h. inl h)

  descendant_walk_complete :
      contains a (ids ts) ≡ true
      → (inc : Bool) (k : ℕ) → Below ts a k
      → contains k (descendant_walk ts a inc).seen ≡ true
  descendant_walk_complete known inc k here =
      unfold descendant_walk in
      walk-seen_mono (λ k. children_map ts (some k)) (suc (length ts)) (start_walk a inc) a
        (ground arith)
  descendant_walk_complete known inc k (down {b = b} r e) =
      elim (closed inc b (descendant_walk_complete known inc b r)) [
        | inl front ↦ cc (front, ap (contains b) (ends inc))
        | inr all ↦ child-seen _ ts b k (Below-known known r) e all
      ]

  descendant_walk-out :
      (inc : Bool)
      → (descendant_walk ts a inc).seen
        ≡ (if inc then [] else a ∷ []) ++ (descendant_walk ts a inc).out
  unfolding descendant_walk
  descendant_walk-out true = walk-out (λ k. children_map ts (some k)) [] (suc (length ts)) _ refl
  descendant_walk-out false =
      walk-out (λ k. children_map ts (some k)) (a ∷ []) (suc (length ts)) _ refl

Below-sort :
    (ts : List TopicRow) → UniqueIds ts → {a b : ℕ} → Below (sort_by_name ts) a b → Below ts a b
Below-sort ts u here = here
Below-sort ts u (down {c = c} b e) =
    down (Below-sort ts u b) (ground (arith, find_row-sort_by_name c ts u))

Below-unsort :
    (ts : List TopicRow) → UniqueIds ts → {a b : ℕ} → Below ts a b → Below (sort_by_name ts) a b
Below-unsort ts u here = here
Below-unsort ts u (down {c = c} b e) =
    down (Below-unsort ts u b) (ground (arith, find_row-sort_by_name c ts u))

-- In a table of unique ids `descendant_ids` of an existing topic, itself included, holds exactly
-- the topics whose chain of parents reaches it.
pub descendant_ids-iff-Below :
    (s : Store) (a k : ℕ)
    → UniqueIds s.topics
    → contains a (ids s.topics) ≡ true
    → (contains k (descendant_ids s a true) ≡ true) ↔ Below s.topics a k
unfolding descendant_ids
descendant_ids-iff-Below s a k u known =
    let ts : List TopicRow = sort_by_name s.topics in
    let sorted : UniqueIds ts = UniqueIds-sort_by_name s.topics u in
    let out : (descendant_walk ts a true).seen ≡ (descendant_walk ts a true).out =
      descendant_walk-out ts a true in
    (
      λ h. Below-sort s.topics u (descendant_walk_sound ts a sorted true k (rw out h)),
      λ b. rw (← out) (
          descendant_walk_complete ts a (contains-sort_by_name a s.topics ∙ known) true k
            (Below-unsort s.topics u b)),
    )

-- Without the topic itself, no other descendant is missing.
pub descendant_ids-Below :
    (s : Store) (a k : ℕ)
    → UniqueIds s.topics
    → contains a (ids s.topics) ≡ true
    → a ≢ k
    → Below s.topics a k
    → contains k (descendant_ids s a false) ≡ true
unfolding descendant_ids
descendant_ids-Below s a k u known ne b =
    let ts : List TopicRow = sort_by_name s.topics in
    ground (
      arith,
      ap (contains k) (descendant_walk-out ts a false),
      descendant_walk_complete ts a (contains-sort_by_name a s.topics ∙ known) false k
          (Below-unsort s.topics u b),
    )

pub Below-descendant_ids :
    (s : Store) (a k : ℕ)
    → UniqueIds s.topics
    → contains k (descendant_ids s a false) ≡ true
    → Below s.topics a k
unfolding descendant_ids
Below-descendant_ids s a k u h =
    let ts : List TopicRow = sort_by_name s.topics in
    Below-sort s.topics u (
      descendant_walk_sound ts a (UniqueIds-sort_by_name s.topics u) false k
        (ground (arith, ap (contains k) (descendant_walk-out ts a false))))
