-- ===== src/Search.antt =====
-- backend/src/mouseion/services/search.py: the query builder, the sort key and the highlighting. `findall` of
-- the pattern of a term, with the quoted and the bare group, and `str.isalnum` are parameters.
pub mod Markup
mod Tests
use mouseion.Prelude.{
  ℕ, Bool, true, false, not, ◌&&◌, ◌||◌, Option, none, some, List, [], ◌∷◌, ◌++◌, ◌==◌, any, map,
  is_empty, if◌then◌else◌,
}
use mouseion.Text.{Text, codes, strip}
use mouseion.Text.Split.{join_with}

-- `text.replace(old, new)` for an `old` of one character
unfoldable pub replace_char : ℕ → Text → Text → Text
replace_char old new [] = []
replace_char old new (c ∷ t) =
    let rest = replace_char old new t in if c == old then new ++ rest else c ∷ rest

-- a term, and whether it was quoted
abbrev pub Term : Type 0
Term = Text × Bool

module _ (find_terms : Text → List (Text × Text)) (is_alnum : ℕ → Bool) where
  unfoldable pub clean_term : Text → Text
  unfolding replace_char
  clean_term term =
      let cleaned = strip (replace_char 34 (32 ∷ []) term) in
      if any is_alnum cleaned then cleaned else []

  abbrev pub term_of : Text × Text → Term
  term_of (quoted, bare) =
      if is_empty quoted then (clean_term bare, false) else (clean_term quoted, true)

  unfoldable pub terms_from : List (Text × Text) → List Term
  terms_from [] = []
  terms_from (found ∷ more) =
      let rest = terms_from more in
      if is_empty (term_of found).0 then rest else term_of found ∷ rest

  abbrev pub quote : Text → Text
  quote term = 34 ∷ (term ++ 34 ∷ [])

  -- The last part is widened to a prefix where it was not quoted.
  abbrev pub part_of_last : Term → Text
  part_of_last (term, quoted) = if quoted then quote term else quote term ++ 42 ∷ []

  unfoldable pub parts_of : List Term → List Text
  parts_of [] = []
  parts_of (t ∷ []) = part_of_last t ∷ []
  parts_of (t ∷ (u ∷ terms)) = quote t.0 ∷ parts_of (u ∷ terms)

  abbrev pub joined : List Text → Option Text
  joined [] = none
  joined (p ∷ parts) = some (join_with (codes " AND ") (p ∷ parts))

  -- `text = (raw or "").strip()`
  unfoldable pub build_fts_query : Option Text → Option Text
  unfolding terms_from parts_of
  build_fts_query none = none
  build_fts_query (some raw) =
      if is_empty (strip raw) then none else joined (parts_of (terms_from (find_terms (strip raw))))

-- `html.escape(text, quote=False)`
abbrev pub escape_char : ℕ → Text
escape_char c =
    if c == 38
    then codes "&amp;"
    else if c == 60
    then codes "&lt;"
    else if c == 62
    then codes "&gt;"
    else c ∷ []

unfoldable pub escape : Text → Text
escape [] = []
escape (c ∷ t) = escape_char c ++ escape t

unfoldable pub highlight_text : Text → Text
unfolding escape replace_char
highlight_text snippet =
    replace_char 3 (codes "</mark>") (replace_char 2 (codes "<mark>") (escape snippet))

abbrev pub highlight : Option Text → Option Text
highlight none = none
highlight (some snippet) = some (highlight_text snippet)

pub data SortKey : Type 0 where
  relevance added_at year : SortKey

-- the request, where a word that is not a sort key is none
abbrev pub default_sort : Bool → SortKey
default_sort true = relevance
default_sort false = added_at

abbrev pub usable : Bool → SortKey → SortKey
usable false relevance = added_at
usable has_query chosen = chosen

unfoldable pub resolve_sort : Option SortKey → Bool → SortKey
resolve_sort none has_query = usable has_query (default_sort has_query)
resolve_sort (some chosen) has_query = usable has_query chosen
