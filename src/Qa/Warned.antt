-- ===== src/Qa/Warned.antt =====
-- What a reader is warned of.
use mouseion.Prelude.{
  ◌≡◌, refl, subst, Bool, true, ◌||◌, ◌&&◌, not, List, [], ◌∷◌, ◌++◌, arith, any, Bool-cases, inl,
  inr,
}
use mouseion.Text.{Text, has_text, text_eq, text_eq_iff}
use mouseion.Qa.{PaperGrounding}
use mouseion.Qa.Citations.{label_of, titles_of, warn, warn_all, citation_warnings}
use mouseion.Text.{strip}

has_text-append :
    (t : Text) (us vs : List Text) → has_text t (us ++ vs) ≡ (has_text t us || has_text t vs)
has_text-append t [] vs = refl
has_text-append t (u ∷ us) vs = ground (arith, has_text-append t us vs)

module _ (casefold : Text → Text) (available : List Text) (l : Text) where
  -- The citation names a title that is not available, and reads as the label.
  abbrev pub warns_of : Text × Text → Bool
  warns_of (title, section) =
      not (has_text (casefold (strip title)) available) && text_eq (label_of (title, section)) l

  has_text-warn :
      (c : Text × Text) (ws : List Text)
      → has_text l (warn casefold available c ws) ≡ (has_text l ws || warns_of c)
  has_text-warn (title, section) ws =
      elim (Bool-cases (has_text (casefold (strip title)) available)) [
        | inl known ↦ ground (arith, known)
        | inr unknown ↦ elim (Bool-cases (has_text (label_of (title, section)) ws)) [
          | inr new ↦
              ground (arith, unknown, new, has_text-append l ws (label_of (title, section) ∷ []))
          | inl there ↦ elim (Bool-cases (text_eq (label_of (title, section)) l)) [
            | inr other ↦ ground (arith, unknown, there, other)
            | inl same ↦ ground (
              arith,
              unknown,
              there,
              same,
              subst (λ t. has_text t ws ≡ true) ((text_eq_iff (label_of (title, section)) l).0 same)
                  there,
            )
          ]
        ]
      ]

  has_text-warn_all :
      (cs : List (Text × Text)) (ws : List Text)
      → has_text l (warn_all casefold available cs ws) ≡ (has_text l ws || any warns_of cs)
  unfolding warn_all
  has_text-warn_all [] ws = ground arith
  has_text-warn_all (c ∷ cs) ws =
      ground (arith, has_text-warn c ws, has_text-warn_all cs (warn casefold available c ws))

-- A label is among the warnings if and only if the answer has a citation that reads as the label
-- and whose title, with its case folded, is not that of a paper in the context.
pub citation_warnings-any :
    {F : Type 0} (casefold : Text → Text) (find_citations : Text → List (Text × Text))
    (answer : Text) (materials : List (PaperGrounding F)) (l : Text)
    → has_text l (citation_warnings casefold find_citations answer materials)
      ≡ any (warns_of casefold (titles_of casefold materials) l) (find_citations answer)
unfolding citation_warnings
citation_warnings-any casefold find_citations answer materials l =
    has_text-warn_all casefold (titles_of casefold materials) l (find_citations answer) []
