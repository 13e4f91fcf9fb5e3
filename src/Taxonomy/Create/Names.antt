-- ===== src/Taxonomy/Create/Names.antt =====
-- Names are unique up to the case of ASCII letters, through every statement that writes them.
use mouseion.Prelude.{
  ℕ, ◌≡◌, refl, Bool, false, Option, none, some, List, [], ◌∷◌, ◌++◌, arith, ◌==◌, if◌then◌else◌,
  is_some, Bool-cases, inl, inr,
}
use mouseion.Prelude.Keys.{contains}
use mouseion.Text.{Text, nocase, nocase_eq, text_eq_iff, text_eq_refl}
use mouseion.Taxonomy.Store.{
  TopicRow, find_name, set_parent, set_name, move_children, remove_row, other_has_name, ids,
}
use mouseion.Taxonomy.Sorting.{UniqueIds}

abbrev pub has_name : Text → List TopicRow → Bool
has_name n ts = is_some (find_name n ts)

abbrev pub UniqueNames : List TopicRow → Type 0
UniqueNames [] = Unit
UniqueNames (t ∷ ts) = (has_name t.name ts ≡ false) × UniqueNames ts

nocase_eq-sym : (a b : Text) → nocase_eq a b ≡ nocase_eq b a
nocase_eq-sym a b =
    ground (arith, text_eq_iff (nocase a) (nocase b), text_eq_iff (nocase b) (nocase a))

find_name-append :
    (n : Text) (t : TopicRow) (ts : List TopicRow)
    → find_name n (ts ++ t ∷ [])
      ≡ (if has_name n ts then find_name n ts else if nocase_eq t.name n then some t else none)
find_name-append n t [] = refl
find_name-append n t (u ∷ us) = ground (arith, find_name-append n t us)

pub find_name-append_self :
    (t : TopicRow) (ts : List TopicRow)
    → has_name t.name ts ≡ false
    → find_name t.name (ts ++ t ∷ []) ≡ some t
find_name-append_self t ts h =
    ground (arith, find_name-append t.name t ts, text_eq_refl (nocase t.name))

pub append-UniqueNames :
    (t : TopicRow) (ts : List TopicRow)
    → has_name t.name ts ≡ false
    → UniqueNames ts
    → UniqueNames (ts ++ t ∷ [])
append-UniqueNames t [] h u = (refl, tt)
append-UniqueNames t (x ∷ ts) h u = (
  ground (arith, find_name-append x.name t ts, nocase_eq-sym x.name t.name),
  append-UniqueNames t ts (ground arith) u.1,
)

module _ (k : ℕ) (p : Option ℕ) where
  has_name-set_parent :
      (n : Text) (ts : List TopicRow) → has_name n (set_parent k p ts) ≡ has_name n ts
  has_name-set_parent n [] = refl
  has_name-set_parent n (t ∷ ts) = ground (arith, has_name-set_parent n ts)

  pub set_parent-UniqueNames :
      (ts : List TopicRow) → UniqueNames ts → UniqueNames (set_parent k p ts)
  set_parent-UniqueNames [] u = tt
  set_parent-UniqueNames (t ∷ ts) u =
      (ground (arith, has_name-set_parent t.name ts), set_parent-UniqueNames ts u.1)

  has_name-move_children :
      (n : Text) (ts : List TopicRow) → has_name n (move_children k p ts) ≡ has_name n ts
  has_name-move_children n [] = refl
  has_name-move_children n (t ∷ ts) = ground (arith, has_name-move_children n ts)

  pub move_children-UniqueNames :
      (ts : List TopicRow) → UniqueNames ts → UniqueNames (move_children k p ts)
  move_children-UniqueNames [] u = tt
  move_children-UniqueNames (t ∷ ts) u =
      (ground (arith, has_name-move_children t.name ts), move_children-UniqueNames ts u.1)

module _ (k : ℕ) where
  has_name-remove_row :
      (n : Text) (ts : List TopicRow) → has_name n ts ≡ false → has_name n (remove_row k ts) ≡ false
  has_name-remove_row n [] h = refl
  has_name-remove_row n (t ∷ ts) h = ground (arith, has_name-remove_row n ts)

  pub remove_row-UniqueNames : (ts : List TopicRow) → UniqueNames ts → UniqueNames (remove_row k ts)
  remove_row-UniqueNames [] u = tt
  remove_row-UniqueNames (t ∷ ts) u =
      ground (arith, has_name-remove_row t.name ts, remove_row-UniqueNames ts u.1)

-- A new name for one topic that no other topic has.
module _ (k : ℕ) (name : Text) where
  has_name-set_name :
      (n : Text) (ts : List TopicRow)
      → has_name n ts ≡ false
      → nocase_eq name n ≡ false
      → has_name n (set_name k name ts) ≡ false
  has_name-set_name n [] h ne = refl
  has_name-set_name n (t ∷ ts) h ne = ground (arith, has_name-set_name n ts)

  set_name-same : (ts : List TopicRow) → contains k (ids ts) ≡ false → set_name k name ts ≡ ts
  set_name-same [] h = refl
  set_name-same (t ∷ ts) h = ground (arith, set_name-same ts)

  other_has_name-all :
      (ts : List TopicRow)
      → contains k (ids ts) ≡ false
      → other_has_name k name ts ≡ has_name name ts
  other_has_name-all [] h = refl
  other_has_name-all (t ∷ ts) h = ground (arith, other_has_name-all ts)

  pub set_name-UniqueNames :
      (ts : List TopicRow)
      → UniqueIds ts
      → other_has_name k name ts ≡ false
      → UniqueNames ts
      → UniqueNames (set_name k name ts)
  set_name-UniqueNames [] i h u = tt
  set_name-UniqueNames (t ∷ ts) i h u = elim (Bool-cases (t.id == k)) [
    | inl is ↦
        let fresh : contains k (ids ts) ≡ false = ground (arith, i.0) in
        rw (is, set_name-same ts fresh) (ground (arith, other_has_name-all ts fresh), u.1)
    | inr other ↦ (
      ground (arith, has_name-set_name t.name ts, nocase_eq-sym t.name name),
      ground (arith, set_name-UniqueNames ts i.1),
    )
  ]
