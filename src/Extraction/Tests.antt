-- ===== src/Extraction/Tests.antt =====
-- Topic decisions as a model writes them, and the theorems at them.
use mouseion.Prelude.{◌≡◌, ◌≢◌, refl, none, some, [], ◌∷◌}
use mouseion.Text.{Text, codes, strip}
use mouseion.Effect.{err}
use mouseion.Taxonomy.Store.{TopicRow, Store, Fault, integrity, assertion}
use mouseion.Taxonomy.Create.{TopicAssignment, apply_topic_assignments}
use mouseion.Extraction.{validate_assignment, validate_all}
use mouseion.Extraction.Assignments.{
  OneOf, validate_assignment-OneOf, apply_topic_assignments-validated,
}

abbrev picked : TopicAssignment
picked = record { existing_topic_id = some 1; new_topic_name = some (codes " # "); parent = some 4 }

abbrev picked_only : TopicAssignment
picked_only = record { existing_topic_id = some 1; new_topic_name = none; parent = none }

abbrev store : Store
store = record {
  topics = record { id = 1; name = codes "Learning"; parent_id = none } ∷ [];
  links = [];
  papers = [];
  last_id = 1;
}

picked_validates : validate_assignment picked ≡ some picked_only
unfolding validate_assignment strip mouseion.Text.squeeze mouseion.Text.is_space
picked_validates = refl

all_validate : validate_all (picked ∷ []) ≡ some (picked_only ∷ [])
unfolding validate_assignment strip mouseion.Text.squeeze mouseion.Text.is_space
all_validate = refl

paper_missing : (apply_topic_assignments 7 (picked_only ∷ []) store).0 ≡ err integrity
unfolding apply_topic_assignments mouseion.Taxonomy.Create.apply_steps
    mouseion.Taxonomy.Create.apply_all mouseion.Taxonomy.Create.apply_one
    mouseion.Taxonomy.Lookup.sort_by_name mouseion.Taxonomy.Create.record_links
    mouseion.Taxonomy.Create.link_all mouseion.Taxonomy.Store.insert_or_ignore
paper_missing = refl

validate_assignment-OneOf_example : OneOf picked_only
validate_assignment-OneOf_example = validate_assignment-OneOf picked picked_only picked_validates

apply_topic_assignments-validated_example : integrity ≢ assertion
apply_topic_assignments-validated_example =
    apply_topic_assignments-validated 7 (picked ∷ []) (picked_only ∷ []) store integrity
      all_validate paper_missing
