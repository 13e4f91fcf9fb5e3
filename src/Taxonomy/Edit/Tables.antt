-- ===== src/Taxonomy/Edit/Tables.antt =====
-- What the statements of the edits do to the ids and to the parent of a topic.
use mouseion.Prelude.{
  ℕ, ◌≡◌, refl, false, not, ◌||◌, ◌&&◌, Option, none, some, List, [], ◌∷◌, ◌++◌, arith, ◌==◌,
  if◌then◌else◌,
}
use mouseion.Prelude.Keys.{contains}
use mouseion.Taxonomy.Store.{TopicRow, ids, set_parent, move_children, remove_row, set_name}
use mouseion.Taxonomy.Sorting.{UniqueIds}
use mouseion.Taxonomy.Walk.Below.{parent_of}
use mouseion.Text.{Text}

-- the parent column where the parent `k` becomes `p`
abbrev pub moved : ℕ → Option ℕ → Option (Option ℕ) → Option (Option ℕ)
moved k p none = none
moved k p (some none) = some none
moved k p (some (some q)) = if q == k then some p else some (some q)

module _ (k : ℕ) (p : Option ℕ) where
  pub contains-set_parent :
      (j : ℕ) (ts : List TopicRow) → contains j (ids (set_parent k p ts)) ≡ contains j (ids ts)
  contains-set_parent j [] = refl
  contains-set_parent j (t ∷ ts) = ground (arith, contains-set_parent j ts)

  pub set_parent-UniqueIds : (ts : List TopicRow) → UniqueIds ts → UniqueIds (set_parent k p ts)
  set_parent-UniqueIds [] u = tt
  set_parent-UniqueIds (t ∷ ts) u =
      (ground (arith, contains-set_parent t.id ts), set_parent-UniqueIds ts u.1)

  pub parent_of-set_parent :
      (c : ℕ) (ts : List TopicRow)
      → parent_of (set_parent k p ts) c
        ≡ (if k == c then (if contains c (ids ts) then some p else none) else parent_of ts c)
  parent_of-set_parent c [] = ground arith
  parent_of-set_parent c (t ∷ ts) = ground (arith, parent_of-set_parent c ts)

  pub contains-move_children :
      (j : ℕ) (ts : List TopicRow) → contains j (ids (move_children k p ts)) ≡ contains j (ids ts)
  contains-move_children j [] = refl
  contains-move_children j (t ∷ ts) = ground (arith, contains-move_children j ts)

  pub move_children-UniqueIds :
      (ts : List TopicRow) → UniqueIds ts → UniqueIds (move_children k p ts)
  move_children-UniqueIds [] u = tt
  move_children-UniqueIds (t ∷ ts) u =
      (ground (arith, contains-move_children t.id ts), move_children-UniqueIds ts u.1)

  pub parent_of-move_children :
      (c : ℕ) (ts : List TopicRow) → parent_of (move_children k p ts) c ≡ moved k p (parent_of ts c)
  parent_of-move_children c [] = refl
  parent_of-move_children c (t ∷ ts) = ground (arith, parent_of-move_children c ts)

module _ (k : ℕ) where
  pub contains-remove_row :
      (j : ℕ) (ts : List TopicRow)
      → contains j (ids (remove_row k ts)) ≡ (not (k == j) && contains j (ids ts))
  contains-remove_row j [] = ground arith
  contains-remove_row j (t ∷ ts) = ground (arith, contains-remove_row j ts)

  pub remove_row-UniqueIds : (ts : List TopicRow) → UniqueIds ts → UniqueIds (remove_row k ts)
  remove_row-UniqueIds [] u = tt
  remove_row-UniqueIds (t ∷ ts) u =
      ground (arith, contains-remove_row t.id ts, remove_row-UniqueIds ts u.1)

  pub parent_of-remove_row :
      (c : ℕ) (ts : List TopicRow)
      → parent_of (remove_row k ts) c ≡ (if k == c then none else moved k none (parent_of ts c))
  parent_of-remove_row c [] = ground arith
  parent_of-remove_row c (t ∷ ts) = ground (arith, parent_of-remove_row c ts)

module _ (k : ℕ) (name : Text) where
  pub contains-set_name :
      (j : ℕ) (ts : List TopicRow) → contains j (ids (set_name k name ts)) ≡ contains j (ids ts)
  contains-set_name j [] = refl
  contains-set_name j (t ∷ ts) = ground (arith, contains-set_name j ts)

  pub set_name-UniqueIds : (ts : List TopicRow) → UniqueIds ts → UniqueIds (set_name k name ts)
  set_name-UniqueIds [] u = tt
  set_name-UniqueIds (t ∷ ts) u =
      (ground (arith, contains-set_name t.id ts), set_name-UniqueIds ts u.1)

  pub parent_of-set_name :
      (c : ℕ) (ts : List TopicRow) → parent_of (set_name k name ts) c ≡ parent_of ts c
  parent_of-set_name c [] = refl
  parent_of-set_name c (t ∷ ts) = ground (arith, parent_of-set_name c ts)

module _ (new : TopicRow) where
  pub contains-append_row :
      (j : ℕ) (ts : List TopicRow)
      → contains j (ids (ts ++ new ∷ [])) ≡ (contains j (ids ts) || new.id == j)
  contains-append_row j [] = ground arith
  contains-append_row j (t ∷ ts) = ground (arith, contains-append_row j ts)

  pub append_row-UniqueIds :
      (ts : List TopicRow)
      → contains new.id (ids ts) ≡ false
      → UniqueIds ts
      → UniqueIds (ts ++ new ∷ [])
  append_row-UniqueIds [] h u = (refl, tt)
  append_row-UniqueIds (t ∷ ts) h u =
      (ground (arith, contains-append_row t.id ts), append_row-UniqueIds ts (ground arith) u.1)

  pub parent_of-append_row :
      (c : ℕ) (ts : List TopicRow)
      → parent_of (ts ++ new ∷ []) c ≡ (
          if contains c (ids ts)
          then parent_of ts c
          else if new.id == c
          then some new.parent_id
          else none)
  parent_of-append_row c [] = ground arith
  parent_of-append_row c (t ∷ ts) = ground (arith, parent_of-append_row c ts)
