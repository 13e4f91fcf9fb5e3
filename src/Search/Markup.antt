-- ===== src/Search/Markup.antt =====
-- A snippet cannot bring markup of its own.
use mouseion.Prelude.{
  ℕ, ◌≡◌, refl, sym, ap, ◌∙◌, Bool, true, not, ◌&&◌, ◌||◌, [], ◌∷◌, ◌++◌, arith, ◌==◌, Bool-cases,
  inl, inr,
}
use mathlib.Core.List.{append_assoc}
use mouseion.Text.{Text, codes}
use mouseion.Qa.Sections.{starts_with}
use mouseion.Search.{replace_char, escape_char, escape, highlight_text}

-- Every `<` of the text begins `<mark>` or `</mark>`.
abbrev pub only_marks : Text → Bool
only_marks [] = true
only_marks (c ∷ t) =
    (not (c == 60) || (starts_with (codes "mark>") t || starts_with (codes "/mark>") t))
    && only_marks t

replace_char-append :
    (old : ℕ) (new s t : Text)
    → replace_char old new (s ++ t) ≡ replace_char old new s ++ replace_char old new t
unfolding replace_char
replace_char-append old new [] t = refl
replace_char-append old new (c ∷ s) t = elim (Bool-cases (c == old)) [
  | inl here ↦ rw here (
      ap (λ r. new ++ r) (replace_char-append old new s t)
      ∙ sym (append_assoc new (replace_char old new s) (replace_char old new t)))
  | inr other ↦ rw other (ap (λ r. c ∷ r) (replace_char-append old new s t))
]

-- the text of one character
abbrev rendered : ℕ → Text
rendered c = replace_char 3 (codes "</mark>") (replace_char 2 (codes "<mark>") (escape_char c))

highlight_text-cons : (c : ℕ) (t : Text) → highlight_text (c ∷ t) ≡ rendered c ++ highlight_text t
unfolding highlight_text escape
highlight_text-cons c t =
    ap (replace_char 3 (codes "</mark>"))
      (replace_char-append 2 (codes "<mark>") (escape_char c) (escape t))
    ∙ replace_char-append 3 (codes "</mark>") (replace_char 2 (codes "<mark>") (escape_char c))
        (replace_char 2 (codes "<mark>") (escape t))

only_marks-rendered : (c : ℕ) (t : Text) → only_marks t ≡ true → only_marks (rendered c ++ t) ≡ true
unfolding replace_char
only_marks-rendered c t h = elim (Bool-cases (c == 38)) [
  | inl amp ↦ rw amp h
  | inr not_amp ↦ elim (Bool-cases (c == 60)) [
    | inl lt ↦ rw (not_amp, lt) h
    | inr not_lt ↦ elim (Bool-cases (c == 62)) [
      | inl gt ↦ rw (not_amp, not_lt, gt) h
      | inr not_gt ↦ elim (Bool-cases (c == 2)) [
        | inl open_mark ↦ rw (not_amp, not_lt, not_gt, open_mark) h
        | inr not_open ↦ elim (Bool-cases (c == 3)) [
          | inl close_mark ↦ rw (not_amp, not_lt, not_gt, not_open, close_mark) h
          | inr plain ↦ rw (not_amp, not_lt, not_gt, not_open, plain) (ground (arith, not_lt, h))
        ]
      ]
    ]
  ]
]

-- Whatever the snippet holds, in its highlighted text every `<` begins one of the two mark tags.
pub highlight_text-only_marks : (snippet : Text) → only_marks (highlight_text snippet) ≡ true
unfolding highlight_text escape replace_char
highlight_text-only_marks [] = refl
highlight_text-only_marks (c ∷ t) =
    rw (highlight_text-cons c t)
      (only_marks-rendered c (highlight_text t) (highlight_text-only_marks t))
