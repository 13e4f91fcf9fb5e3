-- ===== src/Taxonomy/Tests.antt =====
-- A small taxonomy on which the operations run, and the theorems at it.
use mouseion.Prelude.{ℕ, true, false, ◌≡◌, refl, ◌↔◌, none, some, List, [], ◌∷◌, arith}
use mouseion.Prelude.Keys.{contains}
use mouseion.Text.{Text, codes}
use mouseion.Effect.{ok}
use mouseion.Taxonomy.Store.{
  Store, ids, has_link, insert_or_ignore, update_parent, update_children, delete_row,
}
use mouseion.Taxonomy.Lookup.{
  normalize_topic_name, find_topic_by_name, normalize_topic_name-idempotent,
}
use mouseion.Taxonomy.Walk.{descendant_ids, descendant_walk, walk, visit, children_map}
use mouseion.Taxonomy.Walk.Below.{Below, descendant_ids-iff-Below}
use mouseion.Taxonomy.Create.{TopicAssignment, get_or_create_topic}
use mouseion.Taxonomy.Create.Outcome.{get_or_create_topic-found}
use mouseion.Taxonomy.Edit.{
  reparent_topic, MergeResult, relink, merge_steps, merge_topics, delete_topic,
}
use mouseion.Taxonomy.Edit.Invariant.{IsForest}
use mouseion.Taxonomy.Edit.Links.{LinksExist, merged_link, merge_topics_total}
use mouseion.Taxonomy.Valid.{
  IsTaxonomy, append-IsForest, get_or_create_topic-IsTaxonomy, reparent_topic-IsTaxonomy,
  merge_topics-IsTaxonomy,
}
use mouseion.Taxonomy.Applied.{Applied}
use mouseion.Taxonomy.Deleted.{Deleted, delete_topic-Deleted}
use mouseion.Taxonomy.Renamed.{Renamed}

abbrev learning : Text
learning = codes "Learning"

abbrev vision : Text
vision = codes "vision"

abbrev biology : Text
biology = codes "Biology"

abbrev demo : Store
demo = record {
  topics =
      record { id = 1; name = learning; parent_id = none }
      ∷ record { id = 2; name = vision; parent_id = some 1 }
      ∷ record { id = 3; name = biology; parent_id = some 2 }
      ∷ [];
  links = (10, 1) ∷ (11, 3) ∷ (10, 3) ∷ [];
  papers = 10 ∷ 11 ∷ [];
  last_id = 3;
}

no_topics-IsForest : IsForest [] 0
no_topics-IsForest = record {
  unique = tt;
  bounded = λ c m. grind arith;
  rooted = λ c m. grind arith;
}

demo-IsTaxonomy : IsTaxonomy demo
unfolding mouseion.Text.nocase
demo-IsTaxonomy = record {
  forest =
      append-IsForest _ 2 biology (some 2)
        (append-IsForest _ 1 vision (some 1)
          (append-IsForest [] 0 learning none no_topics-IsForest refl) refl)
        refl;
  names = (refl, (refl, (refl, tt)));
}

demo-LinksExist : LinksExist demo
demo-LinksExist p t m = ground (arith, m)

abbrev assignments : List TopicAssignment
assignments =
    record { existing_topic_id = some 2; new_topic_name = none; parent = none }
    ∷ record { existing_topic_id = none; new_topic_name = some (codes "Graphs"); parent = some 9 }
    ∷ []

vision_found :
    (get_or_create_topic (λ s. s) (codes "VISION") none demo).0
    ≡ ok (record { id = 2; name = vision; parent_id = some 1 }, false)
unfolding get_or_create_topic normalize_topic_name mouseion.Text.strip mouseion.Text.squeeze
    mouseion.Text.is_space mouseion.Text.nocase
vision_found = refl

-- Merging the root into a topic below it leaves the target at the root, with the papers of both.
merge_below : (merge_topics 1 3 demo).1 ≡ record demo {
  topics =
      record { id = 2; name = vision; parent_id = some 3 }
      ∷ record { id = 3; name = biology; parent_id = none }
      ∷ [];
  links = (11, 3) ∷ (10, 3) ∷ [];
}
unfolding merge_topics merge_steps relink insert_or_ignore update_parent update_children delete_row
    descendant_ids descendant_walk walk visit children_map mouseion.Taxonomy.Lookup.sort_by_name
    mouseion.Text.Order.nocase_leb mouseion.Text.nocase
merge_below = refl

merge_topics-IsTaxonomy_example : IsTaxonomy (merge_topics 1 3 demo).1
merge_topics-IsTaxonomy_example = merge_topics-IsTaxonomy demo 1 3 demo-IsTaxonomy

merge_topics_total_example :
    (r : MergeResult) × ((merge_topics 1 3 demo).0 ≡ ok r)
    × (contains 1 (ids (merge_topics 1 3 demo).1.topics) ≡ false)
    × ((p u : ℕ) → has_link p u (merge_topics 1 3 demo).1.links ≡ merged_link demo 1 3 p u)
merge_topics_total_example =
    merge_topics_total demo 1 3 demo-IsTaxonomy.forest demo-LinksExist refl refl (ground arith)

reparent_topic-IsTaxonomy_example : IsTaxonomy (reparent_topic 3 (some 1) demo).1
reparent_topic-IsTaxonomy_example = reparent_topic-IsTaxonomy demo 3 (some 1) demo-IsTaxonomy

descendant_ids-iff-Below_example :
    (contains 3 (descendant_ids demo 1 true) ≡ true) ↔ Below demo.topics 1 3
descendant_ids-iff-Below_example =
    descendant_ids-iff-Below demo 1 3 demo-IsTaxonomy.forest.unique refl

delete_topic-Deleted_example :
    IsTaxonomy (delete_topic 2 demo).1 × Deleted demo 2 (delete_topic 2 demo)
delete_topic-Deleted_example = delete_topic-Deleted demo 2 demo-IsTaxonomy

get_or_create_topic-IsTaxonomy_example :
    IsTaxonomy (get_or_create_topic (λ s. s) (codes "Graphs") (some 1) demo).1
get_or_create_topic-IsTaxonomy_example =
    get_or_create_topic-IsTaxonomy (λ s. s) (codes "Graphs") (some 1) demo demo-IsTaxonomy
      demo-IsTaxonomy

get_or_create_topic-found_example :
    find_topic_by_name (get_or_create_topic (λ s. s) (codes "VISION") none demo).1 (codes "VISION")
    ≡ some (record { id = 2; name = vision; parent_id = some 1 })
get_or_create_topic-found_example =
    get_or_create_topic-found (λ s. s) (codes "VISION") none demo
      (record { id = 2; name = vision; parent_id = some 1 }) false vision_found
