-- ===== src/Taxonomy/Store.antt =====
-- The tables `topics` and `paper_topics` of migration 0001 as lists of rows, and the statements that
-- taxonomy.py sends, with the constraints that SQLite enforces on them: names unique under NOCASE,
-- foreign keys, ON DELETE SET NULL for parents, ON DELETE CASCADE for links.
use mouseion.Prelude.{
  ℕ, ◌+◌, Bool, true, false, not, ◌&&◌, ◌||◌, Option, none, some, List, [], ◌∷◌, ◌++◌, ◌==◌,
  if◌then◌else◌, opt_eq, length, keep, any, is_some,
}
use mouseion.Prelude.Keys.{contains}
use mouseion.Text.{Text, nocase_eq}
use mouseion.Effect.{Exec, ok, err}

pub record TopicRow : Type 0 where
  pub id : ℕ
  pub name : Text
  pub parent_id : Option ℕ

-- `papers` holds the ids of the paper rows; `last_id` is the AUTOINCREMENT counter of `topics`.
pub record Store : Type 0 where
  pub topics : List TopicRow
  pub links : List (ℕ × ℕ)
  pub papers : List ℕ
  pub last_id : ℕ

-- The exceptions: the subclasses of TopicError, its own messages, sqlite3.IntegrityError, and
-- the AssertionError of an `assert`.
pub data Fault : Type 0 where
  topic_not_found : ℕ → Fault
  name_conflict : Text → Fault
  topic_cycle : ℕ → ℕ → Fault
  empty_name merge_self nothing_selected not_assigned integrity assertion : Fault

abbrev pub Db : Type 0 → Type 0
Db = Exec Store Fault

abbrev pub ids : List TopicRow → List ℕ
ids [] = []
ids (t ∷ ts) = t.id ∷ ids ts

-- WHERE id = ?
abbrev pub find_row : ℕ → List TopicRow → Option TopicRow
find_row k [] = none
find_row k (t ∷ ts) = if t.id == k then some t else find_row k ts

-- WHERE name = ?
abbrev pub find_name : Text → List TopicRow → Option TopicRow
find_name name [] = none
find_name name (t ∷ ts) = if nocase_eq t.name name then some t else find_name name ts

-- a foreign key to `topics`
abbrev pub parent_exists : Option ℕ → List TopicRow → Bool
parent_exists none ts = true
parent_exists (some p) ts = contains p (ids ts)

-- INSERT INTO topics (name, parent_id) VALUES (?, ?)
unfoldable pub insert_topic : Text → Option ℕ → Db ℕ
insert_topic name parent s =
    if is_some (find_name name s.topics) || not (parent_exists parent s.topics)
    then (err integrity, s)
    else let id = s.last_id + 1 in
      let row : TopicRow = record { id = id; name = name; parent_id = parent } in
      (ok id, record s { topics = s.topics ++ row ∷ []; last_id = id })

abbrev pub set_parent : ℕ → Option ℕ → List TopicRow → List TopicRow
set_parent k p [] = []
set_parent k p (t ∷ ts) = (if t.id == k then record t { parent_id = p } else t) ∷ set_parent k p ts

-- UPDATE topics SET parent_id = ? WHERE id = ?
unfoldable pub update_parent : ℕ → Option ℕ → Db Unit
update_parent k p s =
    if contains k (ids s.topics) && not (parent_exists p s.topics)
    then (err integrity, s)
    else (ok tt, record s { topics = set_parent k p s.topics })

abbrev pub move_children : ℕ → Option ℕ → List TopicRow → List TopicRow
move_children k p [] = []
move_children k p (t ∷ ts) =
    (if opt_eq t.parent_id k then record t { parent_id = p } else t) ∷ move_children k p ts

abbrev pub children_count : ℕ → List TopicRow → ℕ
children_count k ts = length (keep (λ t. opt_eq t.parent_id k) ts)

-- UPDATE topics SET parent_id = ? WHERE parent_id = ?, and its rowcount
unfoldable pub update_children : ℕ → Option ℕ → Db ℕ
update_children k p s =
    if any (λ t. opt_eq t.parent_id k) s.topics && not (parent_exists p s.topics)
    then (err integrity, s)
    else (ok (children_count k s.topics), record s { topics = move_children k p s.topics })

abbrev pub set_name : ℕ → Text → List TopicRow → List TopicRow
set_name k name [] = []
set_name k name (t ∷ ts) = (if t.id == k then record t { name = name } else t) ∷ set_name k name ts

abbrev pub other_has_name : ℕ → Text → List TopicRow → Bool
other_has_name k name [] = false
other_has_name k name (t ∷ ts) =
    (not (t.id == k) && nocase_eq t.name name) || other_has_name k name ts

-- UPDATE topics SET name = ? WHERE id = ?
unfoldable pub update_name : ℕ → Text → Db Unit
update_name k name s =
    if contains k (ids s.topics) && other_has_name k name s.topics
    then (err integrity, s)
    else (ok tt, record s { topics = set_name k name s.topics })

abbrev pub remove_row : ℕ → List TopicRow → List TopicRow
remove_row k [] = []
remove_row k (t ∷ ts) =
    let rest = remove_row k ts in
    if t.id == k
    then rest
    else (if opt_eq t.parent_id k then record t { parent_id = none } else t) ∷ rest

abbrev pub remove_topic_links : ℕ → List (ℕ × ℕ) → List (ℕ × ℕ)
remove_topic_links k [] = []
remove_topic_links k ((p, t) ∷ ls) =
    let rest = remove_topic_links k ls in if t == k then rest else (p, t) ∷ rest

-- DELETE FROM topics WHERE id = ?
unfoldable pub delete_row : ℕ → Db Unit
delete_row k s =
    (ok tt, record s { topics = remove_row k s.topics; links = remove_topic_links k s.links })

abbrev pub has_link : ℕ → ℕ → List (ℕ × ℕ) → Bool
has_link p t [] = false
has_link p t ((q, u) ∷ ls) = (q == p && u == t) || has_link p t ls

-- INSERT OR IGNORE INTO paper_topics (paper_id, topic_id) VALUES (?, ?), and its rowcount. OR IGNORE
-- covers the primary key and not the foreign keys.
unfoldable pub insert_or_ignore : ℕ → ℕ → Db ℕ
insert_or_ignore p t s =
    if has_link p t s.links
    then (ok 0, s)
    else if contains p s.papers && contains t (ids s.topics)
    then (ok 1, record s { links = s.links ++ (p, t) ∷ [] })
    else (err integrity, s)

-- INSERT INTO paper_topics (paper_id, topic_id) VALUES (?, ?)
unfoldable pub insert_link : ℕ → ℕ → Db Unit
insert_link p t s =
    if has_link p t s.links || not (contains p s.papers && contains t (ids s.topics))
    then (err integrity, s)
    else (ok tt, record s { links = s.links ++ (p, t) ∷ [] })

abbrev pub remove_link : ℕ → ℕ → List (ℕ × ℕ) → List (ℕ × ℕ)
remove_link p t [] = []
remove_link p t ((q, u) ∷ ls) =
    let rest = remove_link p t ls in if q == p && u == t then rest else (q, u) ∷ rest

-- DELETE FROM paper_topics WHERE paper_id = ? AND topic_id = ?
unfoldable pub delete_link : ℕ → ℕ → Db Unit
delete_link p t s = (ok tt, record s { links = remove_link p t s.links })

-- SELECT paper_id FROM paper_topics WHERE topic_id = ?
abbrev pub papers_of : ℕ → List (ℕ × ℕ) → List ℕ
papers_of t [] = []
papers_of t ((p, u) ∷ ls) = let rest = papers_of t ls in if u == t then p ∷ rest else rest
