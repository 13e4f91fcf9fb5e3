-- ===== src/Taxonomy/Walk.antt =====
-- The walks over the hierarchy: `_children_map`, `descendant_ids`, `ancestor_ids`. A Python set is
-- the list of its members in the order of their insertion.
pub mod Loop
pub mod Below
use mouseion.Prelude.{
  ℕ, zero, suc, Bool, true, false, Option, none, some, List, [], ◌∷◌, ◌++◌, ◌==◌, if◌then◌else◌,
  length, keep,
}
use mouseion.Prelude.Keys.{contains}
use mouseion.Taxonomy.Store.{TopicRow, Store, ids, find_row}
use mouseion.Taxonomy.Lookup.{list_topics}

-- A parent that does not exist counts as none.
abbrev pub effective_parent : List ℕ → TopicRow → Option ℕ
effective_parent known t = elim t.parent_id [
  | none ↦ none
  | some p ↦ (if contains p known then some p else none)
]

abbrev pub same_key : Option ℕ → Option ℕ → Bool
same_key none none = true
same_key none (some k) = false
same_key (some j) none = false
same_key (some j) (some k) = j == k

-- `_children_map`, as the function that `children.get(key, [])` reads
unfoldable pub children_map : List TopicRow → Option ℕ → List TopicRow
children_map topics key = keep (λ t. same_key (effective_parent (ids topics) t) key) topics

-- the locals of `descendant_ids`
pub record Walk : Type 0 where
  pub seen : List ℕ
  pub out : List ℕ
  pub frontier : List ℕ

-- the inner loop, over the children of one topic
unfoldable pub visit : List TopicRow → Walk → Walk
visit [] w = w
visit (child ∷ rest) w = visit rest (
    if contains child.id w.seen then w else record {
      seen = w.seen ++ child.id ∷ [];
      out = w.out ++ child.id ∷ [];
      frontier = w.frontier ++ child.id ∷ [];
    })

-- `while frontier:`, on fuel
unfoldable pub walk : (ℕ → List TopicRow) → ℕ → Walk → Walk
walk children zero w = w
walk children (suc fuel) w = elim w.frontier [
  | [] ↦ w
  | current ∷ rest ↦ walk children fuel (visit (children current) (record w { frontier = rest }))
]

abbrev pub start_walk : ℕ → Bool → Walk
start_walk k include_self = record {
  seen = k ∷ [];
  out = if include_self then k ∷ [] else [];
  frontier = k ∷ [];
}

unfoldable pub descendant_walk : List TopicRow → ℕ → Bool → Walk
descendant_walk topics k include_self =
    walk (λ current. children_map topics (some current)) (suc (length topics))
      (start_walk k include_self)

unfoldable pub descendant_ids : Store → ℕ → Bool → List ℕ
unfolding descendant_walk
descendant_ids s k include_self = (descendant_walk (list_topics s) k include_self).out

-- `while current is not None and current.parent_id is not None:`, on fuel; `seen` is the topic
-- itself and what `out` holds.
unfoldable pub climb : List TopicRow → ℕ → Option TopicRow → List ℕ → List ℕ → List ℕ
climb topics zero current seen out = out
climb topics (suc fuel) none seen out = out
climb topics (suc fuel) (some current) seen out = elim current.parent_id [
  | none ↦ out
  | some p ↦ elim (contains p seen) [
    | true ↦ out
    | false ↦ climb topics fuel (find_row p topics) (seen ++ p ∷ []) (out ++ p ∷ [])
  ]
]

unfoldable pub ancestor_ids : Store → ℕ → List ℕ
unfolding climb
ancestor_ids s k =
    let topics = list_topics s in climb topics (suc (length topics)) (find_row k topics) (k ∷ []) []
