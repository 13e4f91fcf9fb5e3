-- ===== src/Papers/Authors.antt =====
-- The authors column: names that are joined are split into the same names.
use mouseion.Prelude.{
  ◌≡◌, refl, ap, ◌∙◌, false, List, [], ◌∷◌, ◌++◌, arith, All, some, map, is_empty,
}
use mouseion.Prelude.Keys.{contains}
use mouseion.Text.{Text, codes, strip, is_space, lstrip}
use mouseion.Text.Split.{join_with, join_from, split_on, split_on-append, split_on-whole}
use mouseion.Papers.{stripped, text_or_null, join_authors, split_authors}

-- A name as a validator leaves it: not blank, no space at its ends, and without the separator.
abbrev pub IsName : Text → Type 0
IsName a = (strip a ≡ a) × (is_empty a ≡ false) × (contains 59 a ≡ false)

strip_after_space : (a : Text) → strip (32 ∷ a) ≡ strip a
unfolding strip lstrip is_space
strip_after_space a = refl

stripped-cons :
    (x a : Text) (ps : List Text)
    → strip x ≡ a
    → is_empty a ≡ false
    → stripped (x ∷ ps) ≡ a ∷ stripped ps
stripped-cons x a ps same ink = ground (arith, same, ink)

stripped-names : (names : List Text) → All IsName names → stripped names ≡ names
stripped-names [] h = refl
stripped-names (a ∷ names) ((same, ink, one), all) =
    stripped-cons a a names same ink ∙ ap (λ ns. a ∷ ns) (stripped-names names all)

-- the names as they stand after a separator
stripped-spaced :
    (names : List Text) → All IsName names → stripped (map (λ a. 32 ∷ a) names) ≡ names
stripped-spaced [] h = refl
stripped-spaced (a ∷ names) ((same, ink, one), all) =
    stripped-cons (32 ∷ a) a (map (λ n. 32 ∷ n) names) (strip_after_space a ∙ same) ink
    ∙ ap (λ ns. a ∷ ns) (stripped-spaced names all)

append_none : (a : Text) → a ++ [] ≡ a
append_none [] = refl
append_none (c ∷ a) = ap (λ t. c ∷ t) (append_none a)

split_on-join :
    (x : Text) (names : List Text)
    → contains 59 x ≡ false
    → All IsName names
    → split_on 59 (x ++ join_from (codes "; ") names) ≡ x ∷ map (λ a. 32 ∷ a) names
split_on-join x [] h all = ap (split_on 59) (append_none x) ∙ split_on-whole 59 x h
split_on-join x (a ∷ names) h ((same, ink, one), all) =
    split_on-append 59 x (32 ∷ (a ++ join_from (codes "; ") names)) h
    ∙ ap (λ ns. x ∷ ns) (split_on-join (32 ∷ a) names (ground (arith, one)) all)

-- Names that are joined into the column are split into the same names, where none is blank, has a
-- space at its ends or contains a semicolon.
pub split_authors-join_authors :
    (names : List Text) → All IsName names → split_authors (join_authors (some names)) ≡ names
unfolding split_authors join_authors
split_authors-join_authors [] all = refl
split_authors-join_authors ([] ∷ names) ((same, ink, one), all) = cc
split_authors-join_authors ((c ∷ a) ∷ names) ((same, ink, one), all) =
    ap (λ ns. split_authors (text_or_null (join_with (codes "; ") ns)))
      (stripped-names ((c ∷ a) ∷ names) ((same, ink, one), all))
    ∙ (ap stripped (split_on-join (c ∷ a) names one all)
        ∙ (stripped-cons (c ∷ a) (c ∷ a) (map (λ n. 32 ∷ n) names) same ink
            ∙ ap (λ ns. (c ∷ a) ∷ ns) (stripped-spaced names all)))
