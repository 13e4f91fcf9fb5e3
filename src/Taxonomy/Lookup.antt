-- ===== src/Taxonomy/Lookup.antt =====
-- Reading topics: `normalize_topic_name`, `list_topics`, `get_topic`, `find_topic_by_name`.
use mouseion.Prelude.{ℕ, ◌≡◌, Option, List, [], ◌∷◌, if◌then◌else◌}
use mouseion.Text.{Text, strip, squeeze}
use mouseion.Text.Order.{nocase_leb}
use mouseion.Text.Spaces.{squeeze-strip-idempotent}
use mouseion.Taxonomy.Store.{TopicRow, Store, topic_not_found, Db, find_row, find_name}
use mouseion.Effect.{gets, or_raise, ◌>>=◌}

unfoldable pub normalize_topic_name : Text → Text
normalize_topic_name name = strip (squeeze name)

unfoldable pub insert_by_name : TopicRow → List TopicRow → List TopicRow
insert_by_name t [] = t ∷ []
insert_by_name t (u ∷ us) =
    let rest = insert_by_name t us in if nocase_leb t.name u.name then t ∷ u ∷ us else u ∷ rest

-- ORDER BY name COLLATE NOCASE
unfoldable pub sort_by_name : List TopicRow → List TopicRow
unfolding insert_by_name
sort_by_name [] = []
sort_by_name (t ∷ ts) = insert_by_name t (sort_by_name ts)

abbrev pub list_topics : Store → List TopicRow
list_topics s = sort_by_name s.topics

abbrev pub get_topic : Store → ℕ → Option TopicRow
get_topic s k = find_row k s.topics

abbrev pub find_topic_by_name : Store → Text → Option TopicRow
find_topic_by_name s name = find_name (normalize_topic_name name) s.topics

-- `_require`
abbrev pub require_topic : ℕ → Db TopicRow
require_topic k = do found ← gets (λ s. get_topic s k); or_raise found (topic_not_found k)

-- Normalising a name twice is normalising it once, so a stored name is found by itself.
pub normalize_topic_name-idempotent :
    (name : Text) → normalize_topic_name (normalize_topic_name name) ≡ normalize_topic_name name
unfolding normalize_topic_name
normalize_topic_name-idempotent = squeeze-strip-idempotent
