-- ===== src/Text/Split.antt =====
-- `sep.join(parts)` and `text.split(sep)` for a separator of one character.
use mouseion.Prelude.{ℕ, ◌≡◌, refl, false, List, [], ◌∷◌, ◌++◌, arith, ◌==◌, if◌then◌else◌}
use mouseion.Prelude.Keys.{contains}
use mouseion.Text.{Text}

abbrev pub join_from : Text → List Text → Text
join_from sep [] = []
join_from sep (p ∷ ps) = sep ++ (p ++ join_from sep ps)

-- `sep.join(parts)`
abbrev pub join_with : Text → List Text → Text
join_with sep [] = []
join_with sep (p ∷ ps) = p ++ join_from sep ps

-- puts a character before the first part
abbrev pub cons_first : ℕ → List Text → List Text
cons_first c [] = (c ∷ []) ∷ []
cons_first c (p ∷ ps) = (c ∷ p) ∷ ps

-- `text.split(sep)`
unfoldable pub split_on : ℕ → Text → List Text
split_on sep [] = [] ∷ []
split_on sep (c ∷ t) =
    let rest = split_on sep t in if c == sep then [] ∷ rest else cons_first c rest

module _ (sep : ℕ) where
  pub split_on-append :
      (a t : Text) → contains sep a ≡ false → split_on sep (a ++ sep ∷ t) ≡ a ∷ split_on sep t
  unfolding split_on
  split_on-append [] t h = ground arith
  split_on-append (c ∷ a) t h = ground (arith, split_on-append a t)

  pub split_on-whole : (a : Text) → contains sep a ≡ false → split_on sep a ≡ a ∷ []
  unfolding split_on
  split_on-whole [] h = refl
  split_on-whole (c ∷ a) h = ground (arith, split_on-whole a)
