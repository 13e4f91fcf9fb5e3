-- ===== src/Exam/Answer.antt =====
-- backend/src/mouseion/services/examiner.py: the tests on an answer, `user_is_done` and
-- `answer_is_vague`.
use mouseion.Prelude.{
  ℕ, ◌+◌, suc, Bool, true, false, not, ◌&&◌, ◌||◌, Option, none, some, List, [], ◌∷◌, ◌==◌, leb,
  ltb, any, if◌then◌else◌, is_empty,
}
use mouseion.Text.{Text, codes, is_space, lstrip, strip, squeeze}

-- `re.IGNORECASE` on the letters of the pattern: ASCII, and the three that Unicode folds onto them
abbrev pub fold_char : ℕ → ℕ
fold_char c =
    if leb 65 c && leb c 90
    then c + 32
    else if c == 304 || c == 305
    then 105
    else if c == 383
    then 115
    else c

-- A literal at the start of the text, and what follows it.
abbrev pub after_word : Text → Text → Option Text
after_word [] t = some t
after_word (c ∷ w) [] = none
after_word (c ∷ w) (d ∷ t) = if c == fold_char d then after_word w t else none

-- `\s+` and then a word that starts with no space
abbrev pub after_space : Text → Option Text → Option Text
after_space w none = none
after_space w (some []) = none
after_space w (some (c ∷ t)) = if is_space c then after_word w (lstrip t) else none

abbrev pub or_else : Option Text → Option Text → Option Text
or_else none other = other
or_else (some t) other = some t

-- `stop(?:\s+the)?\s+exam`
abbrev pub after_stop : Option Text → Option Text
after_stop rest =
    or_else (after_space (codes "exam") (after_space (codes "the") rest))
      (after_space (codes "exam") rest)

-- `i(?:'m| am)\s+done|done|that(?:'s| is)\s+all|stop(?:\s+the)?\s+exam`. No two of the words start
-- alike, and each has one end, so the first that matches is the one.
abbrev pub after_phrase : Text → Option Text
after_phrase t = or_else (after_space (codes "done") (after_word (codes "i'm") t)) (
    or_else (after_space (codes "done") (after_word (codes "i am") t)) (
      or_else (after_word (codes "done") t) (
        or_else (after_space (codes "all") (after_word (codes "that's") t)) (
          or_else (after_space (codes "all") (after_word (codes "that is") t))
            (after_stop (after_word (codes "stop") t))))))

-- `[.!\s]*` up to the end
abbrev pub only_stops : Option Text → Bool
only_stops none = false
only_stops (some []) = true
only_stops (some (c ∷ t)) = (c == 46 || c == 33 || is_space c) && only_stops (some t)

unfoldable pub user_is_done : Text → Bool
user_is_done text = only_stops (after_phrase (lstrip text))

abbrev pub starts_with : Text → Text → Bool
starts_with [] t = true
starts_with (c ∷ w) [] = false
starts_with (c ∷ w) (d ∷ t) = c == d && starts_with w t

-- `phrase in normalized`
abbrev pub occurs : Text → Text → Bool
occurs w [] = is_empty w
occurs w (c ∷ t) = starts_with w (c ∷ t) || occurs w t

abbrev pub vague_phrases : List Text
vague_phrases =
    codes "i don't know"
    ∷ codes "i do not know"
    ∷ codes "not sure"
    ∷ codes "it just works"
    ∷ codes "something like that"
    ∷ codes "some stuff"
    ∷ []

-- `casefold` is that of `str`, and `is_word` says which characters `\w` matches.
module _ (casefold : Text → Text) (is_word : ℕ → Bool) where
  -- how many runs of `[\w'-]` start in the text; the flag says that the character before was in one
  abbrev pub count_words : Bool → Text → ℕ
  count_words inside [] = 0
  count_words inside (c ∷ t) =
      let here = is_word c || c == 39 || c == 45 in
      let more = count_words here t in if here && not inside then suc more else more

  unfoldable pub answer_is_vague : Text → Bool
  answer_is_vague text =
      let normalized = strip (squeeze (casefold text)) in
      ltb (count_words false normalized) 9 || any (λ phrase. occurs phrase normalized) vague_phrases
