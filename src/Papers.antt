-- ===== src/Papers.antt =====
-- backend/src/mouseion/services/papers.py over the tables `papers` and `paper_texts` of migration
-- 0001. The columns `added_at` and `extracted_at` are left out.
pub mod Authors
pub mod Rows
pub mod Dedup
mod Tests
use mouseion.Prelude.{
  ℕ, ◌+◌, Bool, true, false, not, ◌||◌, Option, none, some, List, [], ◌∷◌, ◌++◌, ◌==◌, map, keep,
  if◌then◌else◌, is_empty, is_some, length,
}
use mouseion.Text.{Text, codes, text_eq, strip}
use mouseion.Text.Split.{join_with, split_on}
use mouseion.Effect.{Exec, Result, ok, err}

-- `[a.strip() for a in parts if a and a.strip()]`
abbrev pub stripped : List Text → List Text
stripped parts = map strip (keep (λ a. not (is_empty (strip a))) parts)

-- `value or None`
abbrev pub text_or_null : Text → Option Text
text_or_null t = if is_empty t then none else some t

unfoldable pub join_authors : Option (List Text) → Option Text
join_authors none = none
join_authors (some authors) = text_or_null (join_with (codes "; ") (stripped authors))

unfoldable pub split_authors : Option Text → List Text
split_authors none = []
split_authors (some value) = if is_empty value then [] else stripped (split_on 59 value)

pub data PaperStatus : Type 0 where
  to_read reading read understood : PaperStatus

pub record PaperRow : Type 0 where
  pub id : ℕ
  pub sha256 : Text
  pub title : Option Text
  pub authors : Option Text
  pub year : Option ℕ
  pub venue : Option Text
  pub source_url : Option Text
  pub abstract : Option Text
  pub summary_short : Option Text
  pub summary_long : Option Text
  pub status : PaperStatus

-- a row of `paper_texts`
pub record PaperText : Type 0 where
  pub paper_id : ℕ
  pub full_text : Text
  pub n_pages : ℕ

-- `last_id` is the AUTOINCREMENT counter of `papers`.
pub record Papers : Type 0 where
  pub rows : List PaperRow
  pub texts : List PaperText
  pub last_id : ℕ

-- sqlite3.IntegrityError: a hash that another row has, or a text for a paper that is not there
pub data PaperFault : Type 0 where
  integrity : PaperFault

abbrev pub PaperDb : Type 0 → Type 0
PaperDb = Exec Papers PaperFault

-- WHERE sha256 = ?
abbrev pub find_hash : Text → List PaperRow → Option PaperRow
find_hash sha [] = none
find_hash sha (p ∷ ps) = if text_eq p.sha256 sha then some p else find_hash sha ps

-- WHERE id = ?
abbrev pub find_paper : ℕ → List PaperRow → Option PaperRow
find_paper k [] = none
find_paper k (p ∷ ps) = if p.id == k then some p else find_paper k ps

abbrev pub opt_text_eq : Option Text → Text → Bool
opt_text_eq none t = false
opt_text_eq (some u) t = text_eq u t

-- WHERE source_url = ? ORDER BY id LIMIT 1; the rows stand in the order of their ids.
abbrev pub find_url : Text → List PaperRow → Option PaperRow
find_url url [] = none
find_url url (p ∷ ps) = if opt_text_eq p.source_url url then some p else find_url url ps

unfoldable pub find_by_sha256 : Papers → Text → Option PaperRow
find_by_sha256 s sha = find_hash sha s.rows

unfoldable pub find_by_source_url : Papers → Text → Option PaperRow
find_by_source_url s url = find_url url s.rows

unfoldable pub get_paper : Papers → ℕ → Option PaperRow
get_paper s k = find_paper k s.rows

abbrev pub new_paper : ℕ → Text → Option Text → PaperRow
new_paper k sha source_url = record {
  id = k;
  sha256 = sha;
  title = none;
  authors = none;
  year = none;
  venue = none;
  source_url = source_url;
  abstract = none;
  summary_short = none;
  summary_long = none;
  status = to_read;
}

unfoldable pub create_paper : Text → Option Text → PaperDb ℕ
create_paper sha source_url s =
    if is_some (find_hash sha s.rows)
    then (err integrity, s)
    else let id = s.last_id + 1 in
      (ok id, record s { rows = s.rows ++ new_paper id sha source_url ∷ []; last_id = id })

-- `except sqlite3.IntegrityError:` looks the hash up again, and raises on if it is not there.
abbrev pub lost_insert : Text → Result PaperFault ℕ × Papers → Result PaperFault (ℕ × Bool) × Papers
lost_insert sha (ok id, s) = (ok (id, true), s)
lost_insert sha (err e, s) = elim (find_hash sha s.rows) [
  | none ↦ (err e, s)
  | some p ↦ (ok (p.id, false), s)
]

-- `race` is what another process writes between the lookup and the INSERT.
unfoldable pub get_or_create_by_sha256 : (Papers → Papers) → Text → Option Text → PaperDb (ℕ × Bool)
get_or_create_by_sha256 race sha source_url s = elim (find_hash sha s.rows) [
  | some p ↦ (ok (p.id, false), s)
  | none ↦ lost_insert sha (create_paper sha source_url (race s))
]

-- the keywords of `update_paper` that are in `_UPDATABLE`; what is not given is None
pub record PaperFields : Type 0 where
  pub title : Option Text
  pub authors : Option Text
  pub year : Option ℕ
  pub venue : Option Text
  pub source_url : Option Text
  pub abstract : Option Text
  pub summary_short : Option Text
  pub summary_long : Option Text
  pub status : Option PaperStatus

abbrev pub no_fields : PaperFields
no_fields = record {
  title = none;
  authors = none;
  year = none;
  venue = none;
  source_url = none;
  abstract = none;
  summary_short = none;
  summary_long = none;
  status = none;
}

-- a column is set where a value is given
abbrev pub given_or {ℓ} : {A : Type ℓ} → Option A → Option A → Option A
given_or none column = column
given_or (some value) column = some value

abbrev pub status_or : Option PaperStatus → PaperStatus → PaperStatus
status_or none column = column
status_or (some value) column = value

abbrev pub with_fields : PaperFields → PaperRow → PaperRow
with_fields f p = record p {
  title = given_or f.title p.title;
  authors = given_or f.authors p.authors;
  year = given_or f.year p.year;
  venue = given_or f.venue p.venue;
  source_url = given_or f.source_url p.source_url;
  abstract = given_or f.abstract p.abstract;
  summary_short = given_or f.summary_short p.summary_short;
  summary_long = given_or f.summary_long p.summary_long;
  status = status_or f.status p.status;
}

abbrev pub change_paper : ℕ → (PaperRow → PaperRow) → List PaperRow → List PaperRow
change_paper k f [] = []
change_paper k f (p ∷ ps) = (if p.id == k then f p else p) ∷ change_paper k f ps

-- With nothing given no statement is sent, which changes no column either.
unfoldable pub update_paper : ℕ → PaperFields → PaperDb Unit
update_paper k f s = (ok tt, record s { rows = change_paper k (with_fields f) s.rows })

abbrev pub find_text : ℕ → List PaperText → Option PaperText
find_text k [] = none
find_text k (t ∷ ts) = if t.paper_id == k then some t else find_text k ts

-- INSERT ... ON CONFLICT (paper_id) DO UPDATE
abbrev pub upsert_text : PaperText → List PaperText → List PaperText
upsert_text t [] = t ∷ []
upsert_text t (u ∷ us) = if u.paper_id == t.paper_id then t ∷ us else u ∷ upsert_text t us

unfoldable pub set_full_text : ℕ → Text → ℕ → PaperDb Unit
set_full_text k full_text n_pages s =
    if is_some (find_paper k s.rows)
    then (
      ok tt,
      record s {
        texts =
            upsert_text (record { paper_id = k; full_text = full_text; n_pages = n_pages }) s.texts;
      },
    )
    else (err integrity, s)

unfoldable pub get_full_text : Papers → ℕ → Option PaperText
get_full_text s k = find_text k s.texts

unfoldable pub count_papers : Papers → ℕ
count_papers s = length s.rows
