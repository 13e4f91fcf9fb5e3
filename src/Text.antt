-- ===== src/Text.antt =====
-- Python's `str` as the list of its code points, with the string operations of the standard
-- library that the services call: `strip`, `re.sub(r"\s+", " ", s)`, slicing, and the ASCII fold of
-- SQLite's NOCASE collation.
pub mod Spaces
pub mod Order
pub mod Split
use Prim.Native.Char.{code}
use Prim.Native.String
use mouseion.Prelude.{
  ℕ, ◌+◌, String, ◌≡◌, refl, ◌↔◌, Bool, true, false, ◌&&◌, ◌||◌, List, [], ◌∷◌, map, arith, ltb,
  leb, ◌==◌, if◌then◌else◌, is_empty,
}

abbrev pub Text : Type 0
Text = List ℕ

-- a literal of the source
abbrev pub codes : String → Text
codes String.[] = []
codes (String.◌∷◌ c s) = code c ∷ codes s

-- `a == b`
abbrev pub text_eq : Text → Text → Bool
text_eq [] [] = true
text_eq [] (d ∷ t) = false
text_eq (c ∷ s) [] = false
text_eq (c ∷ s) (d ∷ t) = c == d && text_eq s t

text_eq→eq : (s t : Text) → text_eq s t ≡ true → s ≡ t
text_eq→eq [] [] h = refl
text_eq→eq [] (d ∷ t) h = cc
text_eq→eq (c ∷ s) [] h = cc
text_eq→eq (c ∷ s) (d ∷ t) h = ground (arith, text_eq→eq s t)

pub text_eq_refl : (s : Text) → text_eq s s ≡ true
text_eq_refl [] = refl
text_eq_refl (c ∷ s) = ground (arith, text_eq_refl s)

pub text_eq_iff : (s t : Text) → (text_eq s t ≡ true) ↔ (s ≡ t)
text_eq_iff s t = (text_eq→eq s t, λ e. rw e (text_eq_refl t))

-- `text in texts`
abbrev pub has_text : Text → List Text → Bool
has_text t [] = false
has_text t (u ∷ us) = text_eq u t || has_text t us

-- `str.isspace` of one character, and `\s` of a pattern on text
unfoldable pub is_space : ℕ → Bool
is_space c =
    (leb 9 c && leb c 13)
    || (leb 28 c && leb c 32)
    || c == 133
    || c == 160
    || c == 5760
    || (leb 8192 c && leb c 8202)
    || c == 8232
    || c == 8233
    || c == 8239
    || c == 8287
    || c == 12288

unfoldable pub lstrip : Text → Text
lstrip [] = []
lstrip (c ∷ s) = let rest = lstrip s in if is_space c then rest else c ∷ s

unfoldable pub rstrip : Text → Text
rstrip [] = []
rstrip (c ∷ s) = let rest = rstrip s in if is_space c && is_empty rest then [] else c ∷ rest

unfoldable pub strip : Text → Text
unfolding lstrip rstrip
strip s = rstrip (lstrip s)

-- `re.sub(r"\s+", " ", s)`; the flag says that the character before was a space.
unfoldable pub squeeze_from : Bool → Text → Text
squeeze_from after [] = []
squeeze_from after (c ∷ s) =
    let rest = squeeze_from (is_space c) s in
    if is_space c then (if after then rest else 32 ∷ rest) else c ∷ rest

unfoldable pub squeeze : Text → Text
unfolding squeeze_from
squeeze = squeeze_from false

-- NOCASE folds the 26 upper-case letters of ASCII.
unfoldable pub nocase_char : ℕ → ℕ
nocase_char c = if leb 65 c && leb c 90 then c + 32 else c

unfoldable pub nocase : Text → Text
unfolding nocase_char
nocase = map nocase_char

-- `a = b` in a column declared COLLATE NOCASE
abbrev pub nocase_eq : Text → Text → Bool
nocase_eq a b = text_eq (nocase a) (nocase b)
