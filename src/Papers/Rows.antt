-- ===== src/Papers/Rows.antt =====
-- What a paper's row is after an update.
use mouseion.Prelude.{ℕ, ◌≡◌, refl, some, List, [], ◌∷◌, arith, ◌==◌, Bool-cases, inl, inr}
use mouseion.Papers.{
  PaperRow, Papers, PaperFields, with_fields, find_paper, change_paper, get_paper, update_paper,
}

pub find_paper-id :
    (k : ℕ) (rows : List PaperRow) (p : PaperRow) → find_paper k rows ≡ some p → p.id ≡ k
find_paper-id k [] p h = cc
find_paper-id k (q ∷ rows) p h = elim (Bool-cases (q.id == k)) [
  | inl here ↦ ground (arith, here, h)
  | inr other ↦ find_paper-id k rows p (rw other at h)
]

find_paper-changed :
    (k : ℕ) (f : PaperRow → PaperRow)
    → ((q : PaperRow) → (f q).id ≡ q.id)
    → (rows : List PaperRow) (p : PaperRow) → find_paper k rows ≡ some p
    → find_paper k (change_paper k f rows) ≡ some (f p)
find_paper-changed k f same [] p h = cc
find_paper-changed k f same (q ∷ rows) p h =
    ground (arith, h, same q, find_paper-changed k f same rows p)

-- The row of a paper after an update has the given columns, and the others as they were.
pub get_paper-update_paper :
    (k : ℕ) (fields : PaperFields) (s : Papers) (p : PaperRow)
    → get_paper s k ≡ some p
    → get_paper (update_paper k fields s).1 k ≡ some (with_fields fields p)
unfolding get_paper update_paper
get_paper-update_paper k fields s p h =
    find_paper-changed k (with_fields fields) (λ q. refl) s.rows p h
