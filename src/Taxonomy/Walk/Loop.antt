-- ===== src/Taxonomy/Walk/Loop.antt =====
-- The breadth-first loop of `descendant_ids` over any map of children: it ends by its own test, what
-- it has seen is closed under children, and nothing else is seen.
use mouseion.Prelude.{
  ℕ, zero, suc, ◌+◌, ◌≤◌, ◌≡◌, ap, ◌⊎◌, inl, inr, true, List, [], ◌∷◌, ◌++◌, arith, ◌==◌, ==_iff,
  if◌then◌else◌, length, length-append, All, Bool-cases, List-cases,
}
use mathlib.Core.List.{append_assoc}
use mouseion.Prelude.Keys.{contains, contains-append, unseen, unseen-lt}
use mouseion.Taxonomy.Store.{TopicRow}
use mouseion.Taxonomy.Walk.{Walk, visit, walk}

abbrev pub AllIn : List ℕ → List TopicRow → Type 0
AllIn ks = All (λ c. contains c.id ks ≡ true)

abbrev step : TopicRow → Walk → Walk
step child w = if contains child.id w.seen then w else record {
  seen = w.seen ++ child.id ∷ [];
  out = w.out ++ child.id ∷ [];
  frontier = w.frontier ++ child.id ∷ [];
}

-- What one round keeps: members stay, a new member is on the frontier, and the children are seen.
visit-seen_mono :
    (cs : List TopicRow) (w : Walk) (k : ℕ)
    → contains k w.seen ≡ true
    → contains k (visit cs w).seen ≡ true
unfolding visit
visit-seen_mono [] w k h = h
visit-seen_mono (c ∷ cs) w k h =
    visit-seen_mono cs (step c w) k (ground (arith, contains-append k w.seen (c.id ∷ [])))

visit-frontier_mono :
    (cs : List TopicRow) (w : Walk) (k : ℕ)
    → contains k w.frontier ≡ true
    → contains k (visit cs w).frontier ≡ true
unfolding visit
visit-frontier_mono [] w k h = h
visit-frontier_mono (c ∷ cs) w k h =
    visit-frontier_mono cs (step c w) k (ground (arith, contains-append k w.frontier (c.id ∷ [])))

step-new :
    (c : TopicRow) (w : Walk) (k : ℕ)
    → contains k (step c w).seen ≡ true
    → (contains k w.seen ≡ true) ⊎ (contains k (step c w).frontier ≡ true)
step-new c w k h =
    ground (arith, contains-append k w.frontier (c.id ∷ []), contains-append k w.seen (c.id ∷ []))

visit-new :
    (cs : List TopicRow) (w : Walk) (k : ℕ)
    → contains k (visit cs w).seen ≡ true
    → (contains k w.seen ≡ true) ⊎ (contains k (visit cs w).frontier ≡ true)
unfolding visit
visit-new [] w k h = inl h
visit-new (c ∷ cs) w k h = elim (visit-new cs (step c w) k h) [
  | inr e ↦ inr e
  | inl e ↦ elim (step-new c w k e) [
    | inl e ↦ inl e
    | inr e ↦ inr (visit-frontier_mono cs (step c w) k e)
  ]
]

AllIn-mono :
    (ks ls : List ℕ)
    → ((k : ℕ) → contains k ks ≡ true → contains k ls ≡ true)
    → (cs : List TopicRow) → AllIn ks cs
    → AllIn ls cs
AllIn-mono ks ls sub [] h = tt
AllIn-mono ks ls sub (c ∷ cs) h = (sub c.id h.0, AllIn-mono ks ls sub cs h.1)

visit-AllIn : (cs : List TopicRow) (w : Walk) → AllIn (visit cs w).seen cs
unfolding visit
visit-AllIn [] w = tt
visit-AllIn (c ∷ cs) w = (
  visit-seen_mono cs (step c w) c.id (ground (arith, contains-append c.id w.seen (c.id ∷ []))),
  visit-AllIn cs (step c w),
)

module _ (children : ℕ → List TopicRow) where
  abbrev pub Closed : Walk → Type 0
  Closed w =
      (k : ℕ)
      → contains k w.seen ≡ true
      → (contains k w.frontier ≡ true) ⊎ AllIn w.seen (children k)

  round-Closed :
      (w : Walk) (current : ℕ) (rest : List ℕ)
      → w.frontier ≡ current ∷ rest
      → Closed w
      → Closed (visit (children current) (record w { frontier = rest }))
  round-Closed w current rest e closed k h =
      let w' = record w { frontier = rest } in
      elim (visit-new (children current) w' k h) [
        | inr new ↦ inl new
        | inl old ↦ elim (closed k old) [
          | inr all ↦
              inr (AllIn-mono w.seen _ (visit-seen_mono (children current) w') (children k) all)
          | inl front ↦ elim (Bool-cases (current == k)) [
            | inl same ↦ inr (rw (← (==_iff current k).0 same) (visit-AllIn (children current) w'))
            | inr other ↦
                inl
                  (visit-frontier_mono (children current) w' k (ground (arith, ap (contains k) e)))
          ]
        ]
      ]

  pub walk-Closed : (fuel : ℕ) (w : Walk) → Closed w → Closed (walk children fuel w)
  unfolding walk
  walk-Closed zero w h = h
  walk-Closed (suc fuel) w h = elim (List-cases w.frontier) [
    | inl e ↦ rw (e, walk) h
    | inr (current, rest, e) ↦
        rw (e, walk)
          (walk-Closed fuel (visit (children current) (record w { frontier = rest }))
            (round-Closed w current rest e h))
  ]

  pub walk-seen_mono :
      (fuel : ℕ) (w : Walk) (k : ℕ)
      → contains k w.seen ≡ true
      → contains k (walk children fuel w).seen ≡ true
  unfolding walk
  walk-seen_mono zero w k h = h
  walk-seen_mono (suc fuel) w k h = elim (List-cases w.frontier) [
    | inl e ↦ rw (e, walk) h
    | inr (current, rest, e) ↦
        rw (e, walk)
          (walk-seen_mono fuel _ k
            (visit-seen_mono (children current) (record w { frontier = rest }) k h))
  ]

-- A property that passes to children holds of all that is seen.
module _ (children : ℕ → List TopicRow) (P : ℕ → Type 0) where
  abbrev Within : Walk → Type 0
  Within w =
      ((k : ℕ) → contains k w.seen ≡ true → P k) × ((k : ℕ) → contains k w.frontier ≡ true → P k)

  contains-snoc :
      (ks : List ℕ) (j k : ℕ)
      → ((k : ℕ) → contains k ks ≡ true → P k)
      → P j
      → contains k (ks ++ j ∷ []) ≡ true
      → P k
  contains-snoc ks j k h p e = elim (Bool-cases (contains k ks)) [
    | inl old ↦ h k old
    | inr new ↦ rw (← (==_iff j k).0 (ground (arith, contains-append k ks (j ∷ [])))) p
  ]

  visit-Within :
      (cs : List TopicRow) (w : Walk) → All (λ c. P c.id) cs → Within w → Within (visit cs w)
  unfolding visit
  visit-Within [] w hc h = h
  visit-Within (c ∷ cs) w hc h = elim (Bool-cases (contains c.id w.seen)) [
    | inl old ↦ rw (old, visit) (visit-Within cs w hc.1 h)
    | inr new ↦
        rw (new, visit)
          (visit-Within cs _ hc.1 (
            λ k. contains-snoc w.seen c.id k h.0 hc.0,
            λ k. contains-snoc w.frontier c.id k h.1 hc.0,
          ))
  ]

  pub walk-Within :
      ((k : ℕ) → P k → All (λ c. P c.id) (children k))
      → (fuel : ℕ) (w : Walk) → Within w
      → Within (walk children fuel w)
  unfolding walk
  walk-Within down zero w h = h
  walk-Within down (suc fuel) w h = elim (List-cases w.frontier) [
    | inl e ↦ rw (e, walk) h
    | inr (current, rest, e) ↦
        rw (e, walk)
          (walk-Within down fuel (visit (children current) (record w { frontier = rest })) (
            visit-Within (children current) (record w { frontier = rest })
              (down current (h.1 current (rw e (ground arith))))
              (h.0, λ k m. h.1 k (rw e (ground arith)))))
  ]

-- The loop ends: what is still to be seen and what waits on the frontier falls in each round.
module _ (children : ℕ → List TopicRow) (candidates : List ℕ)
    (known : (k : ℕ) → AllIn candidates (children k)) where
  abbrev measure : Walk → ℕ
  measure w = unseen candidates w.seen + length w.frontier

  visit-measure :
      (cs : List TopicRow) (w : Walk) → AllIn candidates cs → measure (visit cs w) ≤ measure w
  unfolding visit
  visit-measure [] w h = omega arith
  visit-measure (c ∷ cs) w h = elim (Bool-cases (contains c.id w.seen)) [
    | inl old ↦ rw (old, visit) (visit-measure cs w h.1)
    | inr new ↦
        rw (new, visit)
          (omega (
            arith,
            visit-measure cs _ h.1,
            unseen-lt candidates w.seen c.id h.0 new,
            length-append w.frontier (c.id ∷ []),
          ))
  ]

  pub walk-ends : (fuel : ℕ) (w : Walk) → measure w ≤ fuel → (walk children fuel w).frontier ≡ []
  unfolding walk
  walk-ends zero w h = elim (List-cases w.frontier) [
    | inl e ↦ e
    | inr (c, r, e) ↦ absurd (omega (arith, ap (length {A = ℕ}) e))
  ]
  walk-ends (suc fuel) w h = elim (List-cases w.frontier) [
    | inl e ↦ rw (e, walk) e
    | inr (current, rest, e) ↦
        rw (e, walk)
          (walk-ends fuel (visit (children current) (record w { frontier = rest })) (
            omega (
              arith,
              visit-measure (children current) (record w { frontier = rest }) (known current),
              ap (length {A = ℕ}) e,
            )))
  ]

-- `out` is `seen` without what was there at the start.
module _ (children : ℕ → List TopicRow) (start : List ℕ) where
  visit-out :
      (cs : List TopicRow) (w : Walk)
      → w.seen ≡ start ++ w.out
      → (visit cs w).seen ≡ start ++ (visit cs w).out
  unfolding visit
  visit-out [] w e = e
  visit-out (c ∷ cs) w e = elim (Bool-cases (contains c.id w.seen)) [
    | inl old ↦ rw (old, visit) (visit-out cs w e)
    | inr new ↦ rw (new, visit) (visit-out cs _ (rw e (append_assoc start w.out (c.id ∷ []))))
  ]

  pub walk-out :
      (fuel : ℕ) (w : Walk)
      → w.seen ≡ start ++ w.out
      → (walk children fuel w).seen ≡ start ++ (walk children fuel w).out
  unfolding walk
  walk-out zero w h = h
  walk-out (suc fuel) w h = elim (List-cases w.frontier) [
    | inl e ↦ rw (e, walk) h
    | inr (current, rest, e) ↦
        rw (e, walk)
          (walk-out fuel _ (visit-out (children current) (record w { frontier = rest }) h))
  ]
