-- ===== src/Notes/Tests.antt =====
-- A note of one paper, asked for under another.
use mouseion.Prelude.{◌≡◌, refl, none, [], ◌∷◌}
use mouseion.Text.{codes}
use mouseion.Notes.{Notes, get_note, update_note}

abbrev one_note : Notes
one_note = record {
  rows = record { id = 1; paper_id = 1; content = codes "a"; created_at = 5 } ∷ [];
  last_id = 1;
}

not_reached : update_note 2 1 (codes "b") one_note ≡ (none, one_note)
unfolding update_note get_note
not_reached = refl
