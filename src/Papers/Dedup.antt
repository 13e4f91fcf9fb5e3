-- ===== src/Papers/Dedup.antt =====
-- The papers as a map from hashes to ids.
use mouseion.Prelude.{
  ℕ, ◌+◌, ◌≡◌, refl, sym, ap, subst, ◌∙◌, Bool, true, false, not, Option, none, some, List, [], ◌∷◌,
  ◌++◌, if◌then◌else◌, is_some, Bool-cases, Option-cases, inl, inr,
}
use mouseion.Text.{Text, text_eq, text_eq_iff}
use mouseion.Effect.{Result, ok}
use mouseion.Papers.{
  PaperRow, Papers, PaperFault, find_hash, find_by_sha256, new_paper, create_paper, lost_insert,
  get_or_create_by_sha256,
}

abbrev pub id_or_none : Option PaperRow → Option ℕ
id_or_none none = none
id_or_none (some p) = some p.id

-- the abstract view: which paper has a hash
abbrev pub id_of : Papers → Text → Option ℕ
id_of s sha = id_or_none (find_by_sha256 s sha)

-- What the call works on: the papers of the lookup if that finds the hash, and otherwise what another
-- process has left of them.
abbrev pub base : (Papers → Papers) → Text → Papers → Papers
base race sha s = if is_some (find_by_sha256 s sha) then s else race s

-- The result of looking a hash up and, where it has no paper, giving it a new one.
pub record Refines (before : Papers) (sha : Text) (r : Result PaperFault (ℕ × Bool) × Papers)
    : Type 0 where
  pub id : ℕ
  pub created : Bool
  pub returned : r.0 ≡ ok (id, created)
  pub is_new : created ≡ not (is_some (id_of before sha))
  pub view : (t : Text) → id_of r.1 t ≡ (if text_eq sha t then some id else id_of before t)

find_hash-append :
    (t : Text) (rows : List PaperRow) (p : PaperRow)
    → find_hash t rows ≡ none
    → find_hash t (rows ++ p ∷ []) ≡ (if text_eq p.sha256 t then some p else none)
find_hash-append t [] p h = refl
find_hash-append t (q ∷ rows) p h = elim (Bool-cases (text_eq q.sha256 t)) [
  | inl here ↦ cc (rw here at h)
  | inr other ↦ rw other (find_hash-append t rows p (rw other at h))
]

find_hash-append_found :
    (t : Text) (rows : List PaperRow) (p q : PaperRow)
    → find_hash t rows ≡ some q
    → find_hash t (rows ++ p ∷ []) ≡ some q
find_hash-append_found t [] p q h = cc
find_hash-append_found t (x ∷ rows) p q h = elim (Bool-cases (text_eq x.sha256 t)) [
  | inl here ↦ rw here (rw here at h)
  | inr other ↦ rw other (find_hash-append_found t rows p q (rw other at h))
]

-- A hash that has a paper is looked up, and nothing changes.
found-Refines :
    (s : Papers) (sha : Text) (p : PaperRow)
    → find_hash sha s.rows ≡ some p
    → Refines s sha (ok (p.id, false), s)
unfolding find_by_sha256
found-Refines s sha p h = record {
  id = p.id;
  created = false;
  returned = refl;
  is_new = rw h refl;
  view = λ t. elim (Bool-cases (text_eq sha t)) [
    | inr other ↦ rw other refl
    | inl same ↦
        rw same
          (ap id_or_none (subst (λ u. find_hash u s.rows ≡ some p) ((text_eq_iff sha t).0 same) h))
  ];
}

-- A hash that has none is given the next id.
created-Refines :
    (s : Papers) (sha : Text) (url : Option Text)
    → find_hash sha s.rows ≡ none
    → Refines s sha (
      ok (s.last_id + 1, true),
      record s { rows = s.rows ++ new_paper (s.last_id + 1) sha url ∷ []; last_id = s.last_id + 1 },
    )
unfolding find_by_sha256
created-Refines s sha url h = record {
  id = s.last_id + 1;
  created = true;
  returned = refl;
  is_new = rw h refl;
  view = λ t. elim (Option-cases (find_hash t s.rows)) [
    | inl e ↦
        ap id_or_none (find_hash-append t s.rows (new_paper (s.last_id + 1) sha url) e)
        ∙ view_new t e
    | inr (q, e) ↦
        ap id_or_none (find_hash-append_found t s.rows (new_paper (s.last_id + 1) sha url) q e)
        ∙ view_old t q e
  ];
}
  where
    view_new :
        (t : Text)
        → find_hash t s.rows ≡ none
        → id_or_none (if text_eq sha t then some (new_paper (s.last_id + 1) sha url) else none)
          ≡ (if text_eq sha t then some (s.last_id + 1) else id_or_none (find_hash t s.rows))
    view_new t e = elim (Bool-cases (text_eq sha t)) [
      | inl same ↦ rw same refl
      | inr other ↦ rw (other, e) refl
    ]

    view_old :
        (t : Text) (q : PaperRow)
        → find_hash t s.rows ≡ some q
        → Path
            (Option ℕ)
            (some q.id)
            (if text_eq sha t then some (s.last_id + 1) else id_or_none (find_hash t s.rows))
    view_old t q e = elim (Bool-cases (text_eq sha t)) [
      | inl same ↦ cc (e, sym h ∙ ap (λ u. find_hash u s.rows) ((text_eq_iff sha t).0 same))
      | inr other ↦ rw (other, e) refl
    ]

insert-Refines :
    (s : Papers) (sha : Text) (url : Option Text)
    → Refines s sha (lost_insert sha (create_paper sha url s))
unfolding create_paper
insert-Refines s sha url = elim (Option-cases (find_hash sha s.rows)) [
  | inl e ↦ rw (e, create_paper) (created-Refines s sha url e)
  | inr (p, e) ↦ rw (e, create_paper) (rw e (found-Refines s sha p e))
]

-- `get_or_create_by_sha256` is a lookup-or-insert on the map from hashes to ids: it always returns, the
-- paper is new if and only if its hash had none, and afterwards its hash maps to it and every
-- other hash to what it mapped to, also where another process inserts the hash first.
pub get_or_create_by_sha256-Refines :
    (race : Papers → Papers) (sha : Text) (url : Option Text) (s : Papers)
    → Refines (base race sha s) sha (get_or_create_by_sha256 race sha url s)
unfolding get_or_create_by_sha256 find_by_sha256
get_or_create_by_sha256-Refines race sha url s = elim (Option-cases (find_hash sha s.rows)) [
  | inl e ↦ rw (e, get_or_create_by_sha256) (insert-Refines (race s) sha url)
  | inr (p, e) ↦ rw (e, get_or_create_by_sha256) (found-Refines s sha p e)
]
