-- ===== src/Taxonomy/Edit/Removal.antt =====
-- Removing a topic keeps every other chain of parents: after its children were promoted to its own
-- parent (`delete_topic`), or moved under another topic that is not below it (`merge_topics`).
use mouseion.Prelude.{
  ℕ, ◌≡◌, ◌≢◌, refl, ◌⊎◌, subst, sym, ap, inl, inr, not, Option, none, some, List, arith, ◌==◌,
  ==_iff, Bool-cases,
}
use mouseion.Taxonomy.Store.{TopicRow, move_children, remove_row}
use mouseion.Taxonomy.Walk.Below.{parent_of, Below, here, down}
use mouseion.Taxonomy.Edit.Tables.{moved, parent_of-move_children, parent_of-remove_row}
use mouseion.Taxonomy.Edit.Forest.{
  Rooted, root, under, RootedParent, Rooted-child, Rooted-outside, no_cycle,
}

-- A new table keeps the chains of all topics but `x`, if each keeps a parent that is not `x` or is
-- known to be rooted.
Rooted-except :
    (ts us : List TopicRow) (x : ℕ)
    → ((c : ℕ) (p : Option ℕ)
        → x ≢ c
        → parent_of ts c ≡ some p
        → ((parent_of us c ≡ some p) × (p ≢ some x)) ⊎ Rooted us c)
    → {c : ℕ} → x ≢ c
    → Rooted ts c
    → Rooted us c
Rooted-except ts us x same ne (root {c = c} e) = elim (same c none ne e) [
  | inl h ↦ root h.0
  | inr r ↦ r
]
Rooted-except ts us x same ne (under {c = c} {p = p} e r) = elim (same c (some p) ne e) [
  | inl h ↦ under h.0 (Rooted-except ts us x same (λ i. h.1 (ap some (sym i))) r)
  | inr r' ↦ r'
]

abbrev pub without : ℕ → Option ℕ → List TopicRow → List TopicRow
without k q ts = remove_row k (move_children k q ts)

parent_of-without :
    (k c : ℕ) (q : Option ℕ) (ts : List TopicRow)
    → k ≢ c
    → parent_of (without k q ts) c ≡ moved k none (moved k q (parent_of ts c))
parent_of-without k c q ts ne =
    ground
      (arith, parent_of-remove_row k c (move_children k q ts), parent_of-move_children k q c ts)

module _ (ts : List TopicRow) (k : ℕ) (q : Option ℕ) where
  not_under : (c : ℕ) → (Below ts k c → ⊥) → k ≢ c
  not_under c out e = out (subst (λ x. Below ts k x) e here)

  unmoved : (c : ℕ) → (Below ts k c → ⊥) → parent_of (without k q ts) c ≡ parent_of ts c
  unmoved c out = go (parent_of ts c) refl
    where
      go :
          (p : Option (Option ℕ))
          → parent_of ts c ≡ p
          → parent_of (without k q ts) c ≡ parent_of ts c
      go none e = ground (arith, parent_of-without k c q ts (not_under c out))
      go (some none) e = ground (arith, parent_of-without k c q ts (not_under c out))
      go (some (some p)) e = elim (Bool-cases (p == k)) [
        | inl is ↦
            absurd
              (out (down here (subst (λ x. parent_of ts c ≡ some (some x)) ((==_iff p k).0 is) e)))
        | inr not ↦ ground (arith, parent_of-without k c q ts (not_under c out))
      ]

  -- Children of `k` end up under a rooted `q`.
  pub without-Rooted :
      RootedParent (without k q ts) q
      → q ≢ some k
      → {c : ℕ} → k ≢ c
      → Rooted ts c
      → Rooted (without k q ts) c
  without-Rooted rq ne = Rooted-except ts (without k q ts) k same
    where
      same :
          (c : ℕ) (p : Option ℕ)
          → k ≢ c
          → parent_of ts c ≡ some p
          → ((parent_of (without k q ts) c ≡ some p) × (p ≢ some k)) ⊎ Rooted (without k q ts) c
      same c none kc e = inl (ground (arith, parent_of-without k c q ts kc), ground arith)
      same c (some p) kc e = elim (Bool-cases (p == k)) [
        | inl is ↦ inr (Rooted-child q (ground (arith, parent_of-without k c q ts kc)) rq)
        | inr not ↦ inl (ground (arith, parent_of-without k c q ts kc), ground arith)
      ]

-- Deleting `k`, its children promoted to its parent.
pub delete-Rooted :
    (ts : List TopicRow) (k : ℕ) (q : Option ℕ)
    → parent_of ts k ≡ some q
    → Rooted ts k
    → RootedParent ts q
    → {c : ℕ} → k ≢ c
    → Rooted ts c
    → Rooted (without k q ts) c
delete-Rooted ts k none e rk rq = without-Rooted ts k none tt (ground arith)
delete-Rooted ts k (some q) e rk rq =
    without-Rooted ts k (some q)
      (Rooted-outside ts (without k (some q) ts) k (unmoved ts k (some q)) (no_cycle q rk e) rq)
      (λ i. no_cycle q rk e (subst (λ x. Below ts k x) (sym (some_inj i)) here))
  where
    some_inj : some q ≡ some k → q ≡ k
    some_inj i = cc

-- Absorbing `k` into `t`, which is not below it.
pub absorb-Rooted :
    (ts : List TopicRow) (k t : ℕ)
    → Rooted ts t
    → (Below ts k t → ⊥)
    → {c : ℕ} → k ≢ c
    → Rooted ts c
    → Rooted (without k (some t) ts) c
absorb-Rooted ts k t rt out =
    without-Rooted ts k (some t)
      (Rooted-outside ts (without k (some t) ts) k (unmoved ts k (some t)) out rt)
      (λ i. out (subst (λ x. Below ts k x) (sym (some_inj i)) here))
  where
    some_inj : some t ≡ some k → t ≡ k
    some_inj i = cc
