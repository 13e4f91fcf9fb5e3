-- ===== src/Taxonomy/Edit/Forest.antt =====
-- The hierarchy stays a forest: every chain of parents ends at a root, so there is no cycle and no
-- dangling parent. First on tables, for the change of one parent, the promotion of children and the
-- merge; then for the edits.
use mouseion.Prelude.{
  ℕ, ◌≡◌, ◌≢◌, refl, ◌⊎◌, subst, ◌∙◌, inl, inr, true, not, Option, none, some, List, arith, ◌==◌,
  ==_iff, Bool-cases,
}
use mouseion.Prelude.Keys.{contains}
use mouseion.Taxonomy.Store.{TopicRow, ids, set_parent}
use mouseion.Taxonomy.Walk.Below.{parent_of, Below, here, down, found→contains}
use mouseion.Taxonomy.Edit.Tables.{parent_of-set_parent}

-- The chain of parents of a topic ends at a root.
pub data Rooted (ts : List TopicRow) : ℕ → Type 0 where
  root : {c : ℕ} → parent_of ts c ≡ some none → Rooted ts c
  under : {c p : ℕ} → parent_of ts c ≡ some (some p) → Rooted ts p → Rooted ts c

pub Below-trans : {ts : List TopicRow} {a b c : ℕ} → Below ts a b → Below ts b c → Below ts a c
Below-trans ab here = ab
Below-trans ab (down bc e) = down (Below-trans ab bc) e

step_up :
    {ts : List TopicRow} {c q : ℕ}
    → parent_of ts c ≡ some (some q)
    → ((p : ℕ) → parent_of ts q ≡ some (some p) → Below ts q p → ⊥)
    → Below ts c q
    → ⊥
step_up e above here = above _ e here
step_up e above (down {b = p} b e') = above p e' (Below-trans (down here e) b)

-- A topic with a rooted chain is not above its own parent.
pub no_cycle :
    {ts : List TopicRow} {c : ℕ} (p : ℕ)
    → Rooted ts c
    → parent_of ts c ≡ some (some p)
    → Below ts c p
    → ⊥
no_cycle p (root e) h b = cc
no_cycle {ts} {c} p (under {p = q} e r) h b =
    let same : p ≡ q = cc in
    step_up e (λ p' e' b'. no_cycle p' r e' b') (subst (λ x. Below ts c x) same b)

module _ (ts us : List TopicRow) (a : ℕ) where
  -- Where a new table changes only parents at or below `a`, the rest keeps its chains.
  pub Rooted-outside :
      ((c : ℕ) → (Below ts a c → ⊥) → parent_of us c ≡ parent_of ts c)
      → {c : ℕ} → (Below ts a c → ⊥)
      → Rooted ts c
      → Rooted us c
  Rooted-outside same out (root {c = c} e) = root (same c out ∙ e)
  Rooted-outside same out (under {c = c} e r) =
      under (same c out ∙ e) (Rooted-outside same (λ b. out (down b e)) r)

-- The chain of a possible parent.
abbrev pub RootedParent : List TopicRow → Option ℕ → Type 0
RootedParent ts none = Unit
RootedParent ts (some p) = Rooted ts p

pub Rooted-child :
    {ts : List TopicRow} {c : ℕ} (p : Option ℕ)
    → parent_of ts c ≡ some p
    → RootedParent ts p
    → Rooted ts c
Rooted-child none e r = root e
Rooted-child (some p) e r = under e r

pub Rooted-parent :
    {ts : List TopicRow} {c : ℕ} (p : Option ℕ)
    → parent_of ts c ≡ some p
    → Rooted ts c
    → RootedParent ts p
Rooted-parent none e r = tt
Rooted-parent (some p) e (root e') = cc
Rooted-parent {ts} (some p) e (under {p = q} e' r) =
    let same : q ≡ p = cc in subst (λ x. Rooted ts x) same r

-- A new table in which `a` is rooted, and all others keep their parents or move under a topic that
-- is rooted there, keeps every chain.
Rooted-all :
    (ts us : List TopicRow) (a : ℕ)
    → Rooted us a
    → ((c : ℕ) (p : Option ℕ)
        → a ≢ c
        → parent_of ts c ≡ some p
        → (parent_of us c ≡ some p) ⊎ Rooted us c)
    → {c : ℕ} → Rooted ts c
    → Rooted us c
Rooted-all ts us a ra same (root {c = c} e) = elim (Bool-cases (a == c)) [
  | inl is ↦ rw (← (==_iff a c).0 is) ra
  | inr not ↦ elim (same c none (ground arith) e) [ inl h ↦ root h | inr r ↦ r ]
]
Rooted-all ts us a ra same (under {c = c} {p = p} e r) = elim (Bool-cases (a == c)) [
  | inl is ↦ rw (← (==_iff a c).0 is) ra
  | inr not ↦ elim (same c (some p) (ground arith) e) [
    | inl h ↦ under h (Rooted-all ts us a ra same r)
    | inr r ↦ r
  ]
]

-- Moving `k` under `p` keeps every chain, if `p` is not at or below `k`.
pub set_parent-Rooted :
    (ts : List TopicRow) (k : ℕ) (p : Option ℕ)
    → contains k (ids ts) ≡ true
    → RootedParent ts p
    → ((q : ℕ) → p ≡ some q → Below ts k q → ⊥)
    → {c : ℕ} → Rooted ts c
    → Rooted (set_parent k p ts) c
set_parent-Rooted ts k p known rp out =
    Rooted-all ts (set_parent k p ts) k
      (Rooted-child p (ground (arith, parent_of-set_parent k p k ts)) (above p rp out))
      (λ c q ne e. inl (ground (arith, parent_of-set_parent k p c ts)))
  where
    outside : (c : ℕ) → (Below ts k c → ⊥) → parent_of (set_parent k p ts) c ≡ parent_of ts c
    outside c no_way = elim (Bool-cases (k == c)) [
      | inl is ↦ absurd (no_way (rw (← (==_iff k c).0 is) here))
      | inr not ↦ ground (arith, parent_of-set_parent k p c ts)
    ]

    above :
        (q : Option ℕ)
        → RootedParent ts q
        → ((r : ℕ) → q ≡ some r → Below ts k r → ⊥)
        → RootedParent (set_parent k p ts) q
    above none r h = tt
    above (some q) r h = Rooted-outside ts (set_parent k p ts) k outside (h q refl) r

pub Rooted-known : {ts : List TopicRow} {c : ℕ} → Rooted ts c → contains c (ids ts) ≡ true
Rooted-known {ts} (root {c = c} e) = found→contains c ts none e
Rooted-known {ts} (under {c = c} {p = p} e r) = found→contains c ts (some p) e
