-- ===== src/Qa/Citations.antt =====
-- `citation_warnings` of qa.py.
use mouseion.Prelude.{List, [], ◌∷◌, ◌++◌, map, if◌then◌else◌}
use mouseion.Text.{Text, codes, has_text, strip}
use mouseion.Qa.{PaperGrounding}

-- `§` is the code point 167.
abbrev pub label_of : Text × Text → Text
label_of (title, section) =
    codes "[" ++ (strip title ++ ((32 ∷ 167 ∷ []) ++ (strip section ++ codes "]")))

module _ (casefold : Text → Text) where
  -- one round of the loop
  abbrev pub warn : List Text → Text × Text → List Text → List Text
  warn available (title, section) warnings =
      if has_text (casefold (strip title)) available
      then warnings
      else if has_text (label_of (title, section)) warnings
      then warnings
      else warnings ++ label_of (title, section) ∷ []

  unfoldable pub warn_all : List Text → List (Text × Text) → List Text → List Text
  warn_all available [] warnings = warnings
  warn_all available (c ∷ cs) warnings = warn_all available cs (warn available c warnings)

module _ {F : Type 0} (casefold : Text → Text) where
  abbrev pub titles_of : List (PaperGrounding F) → List Text
  titles_of materials = map (λ (m : PaperGrounding F). casefold m.title) materials

  -- `find_citations` is `_CITATION_RE.findall`.
  unfoldable pub citation_warnings :
      (Text → List (Text × Text)) → Text → List (PaperGrounding F) → List Text
  unfolding warn_all
  citation_warnings find_citations answer materials =
      warn_all casefold (titles_of materials) (find_citations answer) []
