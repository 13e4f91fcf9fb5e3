-- ===== src/Text/Order.antt =====
-- The order of texts by code points (for UTF-8 the order of the bytes), the order of
-- `COLLATE NOCASE` on folded texts.
use mouseion.Prelude.{Bool, true, false, [], ◌∷◌, ltb, ◌==◌, if◌then◌else◌}
use mouseion.Text.{Text, nocase}

unfoldable pub text_leb : Text → Text → Bool
text_leb [] t = true
text_leb (c ∷ s) [] = false
text_leb (c ∷ s) (d ∷ t) = let rest = text_leb s t in if c == d then rest else ltb c d

unfoldable pub nocase_leb : Text → Text → Bool
unfolding text_leb
nocase_leb a b = text_leb (nocase a) (nocase b)
