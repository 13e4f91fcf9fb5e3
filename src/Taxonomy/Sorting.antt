-- ===== src/Taxonomy/Sorting.antt =====
-- Sorting by name keeps the rows: what is found by id, the ids, and the count.
use mouseion.Prelude.{
  ◌≡◌, refl, ◌∙◌, ap, suc, ℕ, some, false, ◌||◌, List, [], ◌∷◌, length, arith, ◌==◌, if◌then◌else◌,
  Bool-cases, inl, inr,
}
use mouseion.Prelude.Keys.{contains}
use mouseion.Text.Order.{nocase_leb}
use mouseion.Taxonomy.Store.{TopicRow, ids, find_row}
use mouseion.Taxonomy.Lookup.{insert_by_name, sort_by_name}

contains-insert_by_name :
    (k : ℕ) (t : TopicRow) (ts : List TopicRow)
    → contains k (ids (insert_by_name t ts)) ≡ (t.id == k || contains k (ids ts))
unfolding insert_by_name
contains-insert_by_name k t [] = refl
contains-insert_by_name k t (u ∷ us) = ground (arith, contains-insert_by_name k t us)

pub contains-sort_by_name :
    (k : ℕ) (ts : List TopicRow) → contains k (ids (sort_by_name ts)) ≡ contains k (ids ts)
unfolding sort_by_name
contains-sort_by_name k [] = refl
contains-sort_by_name k (t ∷ ts) =
    ground (arith, contains-insert_by_name k t (sort_by_name ts), contains-sort_by_name k ts)

length-insert_by_name :
    (t : TopicRow) (ts : List TopicRow) → length (insert_by_name t ts) ≡ suc (length ts)
unfolding insert_by_name
length-insert_by_name t [] = refl
length-insert_by_name t (u ∷ us) = ground (arith, length-insert_by_name t us)

pub length-sort_by_name : (ts : List TopicRow) → length (sort_by_name ts) ≡ length ts
unfolding sort_by_name
length-sort_by_name [] = refl
length-sort_by_name (t ∷ ts) =
    length-insert_by_name t (sort_by_name ts) ∙ ap suc (length-sort_by_name ts)

-- Each id stands in one row.
abbrev pub UniqueIds : List TopicRow → Type 0
UniqueIds [] = Unit
UniqueIds (t ∷ ts) = (contains t.id (ids ts) ≡ false) × UniqueIds ts

find_row-insert_by_name :
    (k : ℕ) (t : TopicRow) (ts : List TopicRow)
    → contains t.id (ids ts) ≡ false
    → find_row k (insert_by_name t ts) ≡ (if t.id == k then some t else find_row k ts)
unfolding insert_by_name
find_row-insert_by_name k t [] h = refl
find_row-insert_by_name k t (u ∷ us) h = ground (arith, find_row-insert_by_name k t us)

insert_by_name-UniqueIds :
    (t : TopicRow) (ts : List TopicRow)
    → contains t.id (ids ts) ≡ false
    → UniqueIds ts
    → UniqueIds (insert_by_name t ts)
unfolding insert_by_name
insert_by_name-UniqueIds t [] h u = (refl, tt)
insert_by_name-UniqueIds t (x ∷ us) h u = elim (Bool-cases (nocase_leb t.name x.name)) [
  | inl e ↦ rw (e, insert_by_name) (h, u)
  | inr e ↦
      rw (e, insert_by_name)
        (
          ground (arith, contains-insert_by_name x.id t us),
          insert_by_name-UniqueIds t us (ground arith) u.1,
        )
]

pub UniqueIds-sort_by_name : (ts : List TopicRow) → UniqueIds ts → UniqueIds (sort_by_name ts)
unfolding sort_by_name
UniqueIds-sort_by_name [] u = tt
UniqueIds-sort_by_name (t ∷ ts) u =
    insert_by_name-UniqueIds t (sort_by_name ts) (contains-sort_by_name t.id ts ∙ u.0)
      (UniqueIds-sort_by_name ts u.1)

pub find_row-sort_by_name :
    (k : ℕ) (ts : List TopicRow) → UniqueIds ts → find_row k (sort_by_name ts) ≡ find_row k ts
unfolding sort_by_name
find_row-sort_by_name k [] u = refl
find_row-sort_by_name k (t ∷ ts) u = ground (
  arith,
  find_row-insert_by_name k t (sort_by_name ts) (contains-sort_by_name t.id ts ∙ u.0),
  find_row-sort_by_name k ts u.1,
)
