-- ===== src/Search/Tests.antt =====
-- A query, and a snippet with markup in it.
use mouseion.Prelude.{◌≡◌, refl, true, some, List, [], ◌∷◌, ◌++◌, leb}
use mouseion.Text.{Text, codes, strip, is_space}
use mouseion.Search.{clean_term, build_fts_query, highlight_text}
use mouseion.Search.Markup.{only_marks, highlight_text-only_marks}

-- a quoted phrase and the word being typed
abbrev terms : Text → List (Text × Text)
terms text = (codes "a b", []) ∷ ([], codes "c") ∷ []

a_query :
    build_fts_query terms (leb 97) (some (codes "x"))
    ≡ some (34 ∷ (codes "a b" ++ (34 ∷ (codes " AND " ++ (34 ∷ (codes "c" ++ (34 ∷ 42 ∷ [])))))))
unfolding build_fts_query clean_term strip is_space
a_query = refl

abbrev a_snippet : Text
a_snippet = codes "<b>" ++ (2 ∷ (codes "hit" ++ 3 ∷ []))

highlighted : highlight_text a_snippet ≡ codes "&lt;b&gt;<mark>hit</mark>"
unfolding highlight_text
highlighted = refl

highlight_text-only_marks_example : only_marks (highlight_text a_snippet) ≡ true
highlight_text-only_marks_example = highlight_text-only_marks a_snippet
