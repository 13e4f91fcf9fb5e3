-- ===== src/Papers/Tests.antt =====
-- Two authors.
use mouseion.Prelude.{◌≡◌, refl, none, ◌++◌, some, [], ◌∷◌}
use mouseion.Text.{codes, strip, is_space}
use mouseion.Papers.Dedup.{base, Refines, get_or_create_by_sha256-Refines}
use mouseion.Papers.{
  PaperRow, Papers, new_paper, get_or_create_by_sha256, join_authors, split_authors,
}
use mouseion.Papers.Authors.{split_authors-join_authors}

split_authors-join_authors_example :
    split_authors (join_authors (some (codes "A. Author" ∷ codes "B. Buyer" ∷ [])))
    ≡ codes "A. Author" ∷ codes "B. Buyer" ∷ []
unfolding strip is_space
split_authors-join_authors_example =
    split_authors-join_authors (codes "A. Author" ∷ codes "B. Buyer" ∷ [])
      ((refl, refl, refl), ((refl, refl, refl), tt))

abbrev a_paper : PaperRow
a_paper = new_paper 1 (codes "a") none

abbrev one_paper : Papers
one_paper = record { rows = a_paper ∷ []; texts = []; last_id = 1 }

-- another process that inserts a paper of the hash first
abbrev rival : Papers → Papers
rival s = record s { rows = s.rows ++ new_paper 2 (codes "b") none ∷ []; last_id = 2 }

get_or_create_by_sha256-Refines_example :
    Refines
      (base rival (codes "b") one_paper)
      (codes "b")
      (get_or_create_by_sha256 rival (codes "b") none one_paper)
get_or_create_by_sha256-Refines_example =
    get_or_create_by_sha256-Refines rival (codes "b") none one_paper
