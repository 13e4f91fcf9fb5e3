-- ===== src/Taxonomy/Renamed.antt =====
-- What renaming a topic does to every row, on every way in which the call ends.
use mouseion.Prelude.{
  ℕ, ◌≡◌, ◌≢◌, ◌⊎◌, true, false, Bool, Option, none, some, ◌==◌, if◌then◌else◌, is_empty,
}
use mouseion.Prelude.Keys.{contains}
use mouseion.Text.{Text}
use mouseion.Effect.{◌>>=◌, ◌>>◌, Result, ok, err, pure, raise_if, gets, ◌>>◌}
use mouseion.Taxonomy.Store.{
  TopicRow, Store, Fault, topic_not_found, empty_name, name_conflict, Db, ids, find_row, find_name,
  update_name,
}
use mouseion.Taxonomy.Lookup.{normalize_topic_name, find_topic_by_name}
use mouseion.Taxonomy.Edit.{check_clash}

-- a row, where the topic `k` gets the name
abbrev renamed : Bool → Text → Option TopicRow → Option TopicRow
renamed b name none = none
renamed b name (some t) = some (if b then record t { name = name } else t)

-- Another topic has the name, up to case.
abbrev pub Clash : Store → ℕ → Text → Fault → Type 0
Clash s k clean e =
    (t : TopicRow) × (find_name clean s.topics ≡ some t) × (t.id ≢ k) × (e ≡ name_conflict t.name)

-- The ways in which a rename ends; `clean` is the name in its normal form.
abbrev pub Renamed : Store → ℕ → Text → Result Fault TopicRow × Store → Type 0
Renamed s k clean (err e, s') =
    (s' ≡ s)
    × (((e ≡ topic_not_found k) × (contains k (ids s.topics) ≡ false))
        ⊎ (((e ≡ empty_name) × (is_empty clean ≡ true)) ⊎ Clash s k clean e))
Renamed s k clean (ok t, s') =
    (is_empty clean ≡ false)
    × ((old : TopicRow) × (find_row k s.topics ≡ some old) × (t ≡ record old { name = clean }))
    × ((c : ℕ) → find_row c s'.topics ≡ (if k == c then some t else find_row c s.topics))
    × (s'.links ≡ s.links)
    × (s'.last_id ≡ s.last_id)

-- the body of the call after the lookup
abbrev renaming : ℕ → Text → TopicRow → Db TopicRow
renaming k name topic = do
  raise_if (is_empty (normalize_topic_name name)) empty_name
  clash ← gets (λ s. find_topic_by_name s (normalize_topic_name name))
  check_clash k clash
  update_name k (normalize_topic_name name)
  pure (record topic { name = normalize_topic_name name })

abbrev written : ℕ → Text → TopicRow → Db TopicRow
written k name topic = do
  update_name k (normalize_topic_name name)
  pure (record topic { name = normalize_topic_name name })
