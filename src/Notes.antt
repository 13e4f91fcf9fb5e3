-- ===== src/Notes.antt =====
-- backend/src/mouseion/services/notes.py over the rows of `notes` (migration 0001). A time is a number; the
-- column `updated_at` is left out.
mod Tests
use mouseion.Prelude.{
  ℕ, ◌+◌, ◌≤◌, ◌≡◌, refl, ap, Bool, true, false, not, ◌&&◌, ◌||◌, Option, none, some, List, [], ◌∷◌,
  ◌++◌, arith, ◌==◌, ltb, leb, keep, any, All, if◌then◌else◌, Bool-cases, inl, inr,
}
use mouseion.Prelude.Keys.{contains}
use mouseion.Text.{Text}
use mouseion.Effect.{Exec, Result, ok, err, or_raise}

pub record NoteRow : Type 0 where
  pub id : ℕ
  pub paper_id : ℕ
  pub content : Text
  pub created_at : ℕ

-- `last_id` is the AUTOINCREMENT counter of `notes`.
pub record Notes : Type 0 where
  pub rows : List NoteRow
  pub last_id : ℕ

-- sqlite3.IntegrityError for a paper that is not there, and the AssertionError of the `assert`
pub data NoteFault : Type 0 where
  integrity assertion : NoteFault

-- ORDER BY created_at, id
abbrev pub earlier : NoteRow → NoteRow → Bool
earlier a b = ltb a.created_at b.created_at || (a.created_at == b.created_at && leb a.id b.id)

abbrev pub insert_note : NoteRow → List NoteRow → List NoteRow
insert_note n [] = n ∷ []
insert_note n (m ∷ ms) = let rest = insert_note n ms in if earlier n m then n ∷ m ∷ ms else m ∷ rest

abbrev pub sort_notes : List NoteRow → List NoteRow
sort_notes [] = []
sort_notes (n ∷ ns) = insert_note n (sort_notes ns)

unfoldable pub list_notes : Notes → ℕ → List NoteRow
list_notes s paper_id = sort_notes (keep (λ n. n.paper_id == paper_id) s.rows)

-- WHERE id = ? AND paper_id = ?
abbrev pub is_note : ℕ → ℕ → NoteRow → Bool
is_note paper_id note_id n = n.id == note_id && n.paper_id == paper_id

abbrev pub find_note : ℕ → ℕ → List NoteRow → Option NoteRow
find_note paper_id note_id [] = none
find_note paper_id note_id (n ∷ ns) =
    if is_note paper_id note_id n then some n else find_note paper_id note_id ns

unfoldable pub get_note : Notes → ℕ → ℕ → Option NoteRow
get_note s paper_id note_id = find_note paper_id note_id s.rows

-- `papers` has the ids of the papers, and `now` is the time.
unfoldable pub create_note : List ℕ → ℕ → ℕ → Text → Exec Notes NoteFault NoteRow
unfolding get_note
create_note papers now paper_id content s =
    if not (contains paper_id papers)
    then (err integrity, s)
    else let row : NoteRow = record {
      id = s.last_id + 1;
      paper_id = paper_id;
      content = content;
      created_at = now;
    } in
      let s' : Notes = record { rows = s.rows ++ row ∷ []; last_id = s.last_id + 1 } in
      or_raise (get_note s' paper_id (s.last_id + 1)) assertion s'

abbrev pub with_content : ℕ → ℕ → Text → List NoteRow → List NoteRow
with_content paper_id note_id content [] = []
with_content paper_id note_id content (n ∷ ns) =
    (if is_note paper_id note_id n then record n { content = content } else n)
    ∷ with_content paper_id note_id content ns

unfoldable pub update_note : ℕ → ℕ → Text → Notes → Option NoteRow × Notes
unfolding get_note
update_note paper_id note_id content s =
    let s' : Notes = record s { rows = with_content paper_id note_id content s.rows } in
    (get_note s' paper_id note_id, s')

-- whether a row was deleted, and the rows that are left
unfoldable pub delete_note : ℕ → ℕ → Notes → Bool × Notes
delete_note paper_id note_id s = (
  any (is_note paper_id note_id) s.rows,
  record s { rows = keep (λ n. not (is_note paper_id note_id n)) s.rows },
)

-- No row has an id beyond the counter.
abbrev pub Counted : Notes → Type 0
Counted s = All (λ (n : NoteRow). n.id ≤ s.last_id) s.rows

find_note-new :
    (paper_id last : ℕ) (rows : List NoteRow) (row : NoteRow)
    → All (λ (n : NoteRow). n.id ≤ last) rows
    → is_note paper_id (last + 1) row ≡ true
    → find_note paper_id (last + 1) (rows ++ row ∷ []) ≡ some row
find_note-new paper_id last [] row all h = rw h refl
find_note-new paper_id last (n ∷ rows) row (le, all) h =
    ground (arith, le, find_note-new paper_id last rows row all h)

-- In a counted table, creating a note for a paper that exists returns the new row: the `assert` does not
-- fail, and the note is found under its paper afterwards.
pub create_note-returns :
    (papers : List ℕ) (now paper_id : ℕ) (content : Text) (s : Notes)
    → Counted s
    → contains paper_id papers ≡ true
    → (row : NoteRow) × ((create_note papers now paper_id content s).0 ≡ ok row)
      × (row.content ≡ content)
      × (get_note (create_note papers now paper_id content s).1 paper_id row.id ≡ some row)
unfolding create_note
create_note-returns papers now paper_id content s counted there =
    let row : NoteRow = record {
      id = s.last_id + 1;
      paper_id = paper_id;
      content = content;
      created_at = now;
    } in
    let found : find_note paper_id (s.last_id + 1) (s.rows ++ row ∷ []) ≡ some row =
      find_note-new paper_id s.last_id s.rows row counted (ground arith) in
    rw (there, found) (row, refl, refl, found)

rows_untouched :
    (paper_id note_id : ℕ) (content : Text) (rows : List NoteRow)
    → find_note paper_id note_id rows ≡ none
    → (with_content paper_id note_id content rows ≡ rows)
      × (any (is_note paper_id note_id) rows ≡ false)
      × (keep (λ n. not (is_note paper_id note_id n)) rows ≡ rows)
rows_untouched paper_id note_id content [] h = (refl, refl, refl)
rows_untouched paper_id note_id content (n ∷ rows) h =
    elim (Bool-cases (is_note paper_id note_id n)) [
      | inl here ↦ cc (rw here at h)
      | inr other ↦
          let (same, gone, kept) = rows_untouched paper_id note_id content rows (rw other at h) in
          (rw other (ap (λ ns. n ∷ ns) same), rw other gone, rw other (ap (λ ns. n ∷ ns) kept))
    ]

-- A note of another paper is out of reach: where a paper has no note of the id, an update and a deletion
-- say so and leave the table as it is.
pub get_note-untouched :
    (paper_id note_id : ℕ) (content : Text) (s : Notes)
    → get_note s paper_id note_id ≡ none
    → (update_note paper_id note_id content s ≡ (none, s))
      × (delete_note paper_id note_id s ≡ (false, s))
unfolding update_note delete_note get_note
get_note-untouched paper_id note_id content s h =
    let (same, gone, kept) = rows_untouched paper_id note_id content s.rows h in
    (rw (same, h) refl, rw (gone, kept) refl)
