-- ===== src/Taxonomy/Create.antt =====
-- Creating topics: `get_or_create_topic`, and `apply_topic_assignments` for the topic decisions of
-- one ingest.
pub mod Names
pub mod Outcome
use mouseion.Prelude.{
  ℕ, Bool, true, false, not, Option, none, some, List, [], ◌∷◌, ◌++◌, if◌then◌else◌, is_empty,
}
use mouseion.Prelude.Keys.{contains}
use mouseion.Text.{Text}
use mouseion.Effect.{
  Result, ok, err, pure, raise, raise_if, modify, gets, or_raise, transaction, ◌>>=◌, ◌>>◌,
}
use mouseion.Taxonomy.Store.{
  TopicRow, Store, Fault, empty_name, integrity, assertion, Db, find_row, insert_topic,
  insert_or_ignore,
}
use mouseion.Taxonomy.Lookup.{normalize_topic_name, find_topic_by_name, list_topics}

-- `except sqlite3.IntegrityError:` looks the name up again, and raises on if it is not there.
abbrev pub lost_race :
    Text → Option ℕ → Result Fault ℕ × Store → Result Fault (TopicRow × Bool) × Store
lost_race clean parent (ok id, s) =
    (ok (record { id = id; name = clean; parent_id = parent }, true), s)
lost_race clean parent (err integrity, s) = elim (find_topic_by_name s clean) [
  | none ↦ (err integrity, s)
  | some t ↦ (ok (t, false), s)
]
lost_race clean parent (err e, s) = (err e, s)

-- `race` is what another process writes between the lookup and the INSERT: nothing inside a
-- transaction, which holds the write lock.
unfoldable pub get_or_create_topic : (Store → Store) → Text → Option ℕ → Db (TopicRow × Bool)
get_or_create_topic race name parent s =
    let clean = normalize_topic_name name in
    if is_empty clean then raise empty_name s else elim (find_topic_by_name s clean) [
      | some existing ↦ (ok (existing, false), s)
      | none ↦ lost_race clean parent (insert_topic clean parent (race s))
    ]

-- schemas.py: `TopicAssignment`, after validation
pub record TopicAssignment : Type 0 where
  pub existing_topic_id : Option ℕ
  pub new_topic_name : Option Text
  pub parent : Option ℕ

-- the entries of `dropped`, with what their messages name
pub data Dropped : Type 0 where
  unknown_topic : ℕ → Dropped
  unknown_parent : ℕ → Text → Dropped

pub record AppliedTopics : Type 0 where
  pub topic_ids : List ℕ
  pub created : List TopicRow
  pub reused : List TopicRow
  pub dropped : List Dropped

-- the locals of the loop; `seen` has the members of `topic_ids`
pub record Applying : Type 0 where
  pub known : List TopicRow
  pub seen : List ℕ
  pub result : AppliedTopics

-- the last lines of the loop body
abbrev pub add_topic : TopicRow → Applying → Applying
add_topic t a = if contains t.id a.seen then a else record a {
  seen = a.seen ++ t.id ∷ [];
  result = record (a.result) { topic_ids = a.result.topic_ids ++ t.id ∷ [] };
}

abbrev pub drop : Dropped → Applying → Applying
drop d a = record a { result = record (a.result) { dropped = a.result.dropped ++ d ∷ [] } }

abbrev pub reuse : TopicRow → Applying → Applying
reuse t a = record a { result = record (a.result) { reused = a.result.reused ++ t ∷ [] } }

-- `known[topic.id] = topic`, and the entry in `created` or `reused`
abbrev pub remember : TopicRow × Bool → Applying → Applying
remember (t, true) a = record a {
  known = t ∷ a.known;
  result = record (a.result) { created = a.result.created ++ t ∷ [] };
}
remember (t, false) a = reuse t (record a { known = t ∷ a.known })

-- A parent that is not known is dropped, and the topic becomes a root.
abbrev pub resolve_parent : Option ℕ → Text → Applying → Option ℕ × Applying
resolve_parent none name a = (none, a)
resolve_parent (some p) name a = elim (find_row p a.known) [
  | none ↦ (none, drop (unknown_parent p name) a)
  | some t ↦ (some p, a)
]

-- the topic that the proposal found or made, in the locals
abbrev pub took : Applying → TopicRow × Bool → Db Applying
took a found = pure (add_topic found.0 (remember found a))

-- `topic = known.get(assignment.existing_topic_id)`
abbrev pub pick : ℕ → Option TopicRow → Applying → Db Applying
pick k none a = pure (drop (unknown_topic k) a)
pick k (some topic) a = pure (add_topic topic (reuse topic a))

unfoldable pub propose : Option Text → Option ℕ → Applying → Db Applying
propose none parent a = raise assertion
propose (some name) parent a =
    let (p, a') = resolve_parent parent name a in get_or_create_topic (λ s. s) name p >>= took a'

unfoldable pub apply_one : TopicAssignment → Applying → Db Applying
apply_one t a = elim t.existing_topic_id [
  | some k ↦ pick k (find_row k a.known) a
  | none ↦ propose t.new_topic_name t.parent a
]

unfoldable pub apply_all : List TopicAssignment → Applying → Db Applying
apply_all [] a = pure a
apply_all (t ∷ ts) a = do a' ← apply_one t a; apply_all ts a'

-- `executemany` of INSERT OR IGNORE
unfoldable pub link_all : ℕ → List ℕ → Db Unit
link_all paper [] = pure tt
link_all paper (t ∷ ts) = do insert_or_ignore paper t; link_all paper ts

-- the last statement of the transaction
unfoldable pub record_links : ℕ → Applying → Db AppliedTopics
record_links paper a = do link_all paper a.result.topic_ids; pure a.result

abbrev pub start_applying : List TopicRow → Applying
start_applying known = record {
  known = known;
  seen = [];
  result = record { topic_ids = []; created = []; reused = []; dropped = [] };
}

unfoldable pub apply_steps : ℕ → List TopicAssignment → Db AppliedTopics
apply_steps paper assignments = do
  known ← gets list_topics
  a ← apply_all assignments (start_applying known)
  record_links paper a

unfoldable pub apply_topic_assignments : ℕ → List TopicAssignment → Db AppliedTopics
apply_topic_assignments paper assignments = transaction (apply_steps paper assignments)
