-- ===== src/Taxonomy/Tagged.antt =====
-- backend/src/mouseion/services/taxonomy.py: `topics_for_paper`. A link is one row, so the join has
-- each topic once.
use mouseion.Prelude.{ℕ, ◌≡◌, refl, ◌∙◌, ◌&&◌, List, [], ◌∷◌, arith, keep}
use mouseion.Prelude.Keys.{contains}
use mouseion.Taxonomy.Store.{TopicRow, Store, ids, has_link}
use mouseion.Taxonomy.Lookup.{sort_by_name}
use mouseion.Taxonomy.Sorting.{contains-sort_by_name}

unfoldable pub topics_for_paper : Store → ℕ → List TopicRow
topics_for_paper s paper = sort_by_name (keep (λ t. has_link paper t.id s.links) s.topics)

contains-linked :
    (k paper : ℕ) (links : List (ℕ × ℕ)) (ts : List TopicRow)
    → contains k (ids (keep (λ t. has_link paper t.id links) ts))
      ≡ (contains k (ids ts) && has_link paper k links)
contains-linked k paper links [] = refl
contains-linked k paper links (t ∷ ts) = grind (arith, contains-linked k paper links ts)

-- The topics of a paper are the topics that exist and that the paper is linked to.
pub contains-topics_for_paper :
    (s : Store) (paper k : ℕ)
    → contains k (ids (topics_for_paper s paper))
      ≡ (contains k (ids s.topics) && has_link paper k s.links)
unfolding topics_for_paper
contains-topics_for_paper s paper k =
    contains-sort_by_name k (keep (λ t. has_link paper t.id s.links) s.topics)
    ∙ contains-linked k paper s.links s.topics
