-- ===== src/Taxonomy/Edit.antt =====
-- The manual edits of the taxonomy and the links between papers and topics.
pub mod Tables
pub mod Forest
pub mod Removal
pub mod Invariant
pub mod Merging
pub mod Links
use mouseion.Prelude.{
  ℕ, zero, suc, ◌+◌, Bool, true, false, not, ◌&&◌, Option, none, some, List, [], ◌∷◌, ◌++◌, ◌==◌,
  if◌then◌else◌, is_empty, length, is_some, opt_eq, ltb,
}
use mouseion.Prelude.Keys.{contains}
use mouseion.Text.{Text}
use mouseion.Effect.{pure, raise, raise_if, gets, or_raise, transaction, ◌>>=◌, ◌>>◌}
use mouseion.Taxonomy.Store.{
  TopicRow, Store, Fault, topic_not_found, name_conflict, topic_cycle, empty_name, merge_self,
  nothing_selected, not_assigned, assertion, Db, ids, has_link, papers_of, remove_link,
  update_parent, update_children, update_name, delete_row, insert_or_ignore, insert_link,
  delete_link,
}
use mouseion.Taxonomy.Lookup.{normalize_topic_name, find_topic_by_name, get_topic, require_topic}
use mouseion.Taxonomy.Create.{get_or_create_topic}
use mouseion.Taxonomy.Walk.{descendant_ids}

-- `if clash is not None and clash.id != topic_id:`
abbrev pub check_clash : ℕ → Option TopicRow → Db Unit
check_clash k none = pure tt
check_clash k (some t) = raise_if (not (t.id == k)) (name_conflict t.name)

unfoldable pub rename_topic : ℕ → Text → Db TopicRow
rename_topic k name = do
  topic ← require_topic k
  let clean = normalize_topic_name name
  raise_if (is_empty clean) empty_name
  clash ← gets (λ s. find_topic_by_name s clean)
  check_clash k clash
  update_name k clean
  pure (record topic { name = clean })

-- the guards on a new parent
unfoldable pub check_parent : ℕ → Option ℕ → Db Unit
check_parent k none = pure tt
check_parent k (some p) = do
  raise_if (p == k) (topic_cycle k p)
  require_topic p
  below ← gets (λ s. descendant_ids s k true)
  raise_if (contains p below) (topic_cycle k p)

unfoldable pub reparent_topic : ℕ → Option ℕ → Db TopicRow
reparent_topic k parent = do
  topic ← require_topic k
  check_parent k parent
  update_parent k parent
  pure (record topic { parent_id = parent })

pub record MergeResult : Type 0 where
  pub target : TopicRow
  pub papers_relinked : ℕ
  pub children_moved : ℕ

-- INSERT OR IGNORE INTO paper_topics SELECT paper_id, ? FROM paper_topics WHERE topic_id = ?
unfoldable pub relink : ℕ → List ℕ → Db ℕ
relink target [] = pure 0
relink target (p ∷ ps) = do
  one ← insert_or_ignore p target
  more ← relink target ps
  pure (one + more)

-- A target below the source takes the place of the source first.
abbrev pub splice : Bool → ℕ → Option ℕ → Db Unit
splice true target source_parent = update_parent target source_parent
splice false target source_parent = pure tt

-- the statements between BEGIN and COMMIT
unfoldable pub merge_steps : ℕ → ℕ → Option ℕ → Db (ℕ × ℕ)
merge_steps source target source_parent = do
  below ← gets (λ s. descendant_ids s source false)
  splice (contains target below) target source_parent
  papers ← gets (λ s. papers_of source s.links)
  relinked ← relink target papers
  moved ← update_children source (some target)
  delete_row source
  pure (relinked, moved)

unfoldable pub merge_topics : ℕ → ℕ → Db MergeResult
merge_topics source_id target_id = do
  raise_if (source_id == target_id) merge_self
  source ← require_topic source_id
  require_topic target_id
  counts ← transaction (merge_steps source_id target_id source.parent_id)
  found ← gets (λ s. get_topic s target_id)
  target ← or_raise found assertion
  pure (record { target = target; papers_relinked = counts.0; children_moved = counts.1 })

pub record DeleteResult : Type 0 where
  pub topic : TopicRow
  pub paper_links_removed : ℕ
  pub children_promoted : ℕ

unfoldable pub delete_topic : ℕ → Db DeleteResult
delete_topic k = do
  topic ← require_topic k
  transaction do
    links ← gets (λ s. length (papers_of k s.links))
    promoted ← update_children k topic.parent_id
    delete_row k
    pure (record { topic = topic; paper_links_removed = links; children_promoted = promoted })

pub record SplitResult : Type 0 where
  pub source : TopicRow
  pub created : TopicRow
  pub papers_moved : ℕ

-- `list(dict.fromkeys(paper_ids))`
abbrev pub dedup_from : List ℕ → List ℕ → List ℕ
dedup_from seen [] = []
dedup_from seen (p ∷ ps) = elim (contains p seen) [
  | true ↦ dedup_from seen ps
  | false ↦ p ∷ dedup_from (p ∷ seen) ps
]

-- `linked == set(selected)`: each selected paper is linked to the topic.
abbrev pub all_linked : ℕ → List ℕ → List (ℕ × ℕ) → Bool
all_linked t [] links = true
all_linked t (p ∷ ps) links = has_link p t links && all_linked t ps links

unfoldable pub insert_links : List ℕ → ℕ → Db Unit
insert_links [] t = pure tt
insert_links (p ∷ ps) t = do insert_link p t; insert_links ps t

unfoldable pub delete_links : List ℕ → ℕ → Db Unit
delete_links [] t = pure tt
delete_links (p ∷ ps) t = do delete_link p t; delete_links ps t

unfoldable pub split_steps : ℕ → Text → Option ℕ → List ℕ → Db TopicRow
split_steps k clean parent selected = do
  made ← get_or_create_topic (λ s. s) clean parent
  raise_if (not made.1) (name_conflict clean)
  insert_links selected made.0.id
  delete_links selected k
  pure made.0

unfoldable pub split_topic : ℕ → Text → List ℕ → Db SplitResult
split_topic k new_name paper_ids = do
  source ← require_topic k
  let selected = dedup_from [] paper_ids
  raise_if (is_empty selected) nothing_selected
  links ← gets (λ s. s.links)
  raise_if (not (all_linked k selected links)) not_assigned
  let clean = normalize_topic_name new_name
  raise_if (is_empty clean) empty_name
  clash ← gets (λ s. find_topic_by_name s clean)
  raise_if (is_some clash) (name_conflict clean)
  created ← transaction (split_steps k clean source.parent_id selected)
  pure (record { source = source; created = created; papers_moved = length selected })

unfoldable pub add_paper_topic : ℕ → ℕ → Db TopicRow
add_paper_topic paper k = do topic ← require_topic k; insert_or_ignore paper k; pure topic

-- `cursor.rowcount > 0`
unfoldable pub remove_paper_topic : ℕ → ℕ → Db Bool
remove_paper_topic paper k = do
  linked ← gets (λ s. has_link paper k s.links)
  delete_link paper k
  pure linked
