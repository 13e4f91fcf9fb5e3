-- ===== src/Qa/Bounds.antt =====
-- The material of a prompt stays within its budget.
use mouseion.Prelude.{
  ℕ, zero, suc, ◌+◌, ◌-◌, ◌≤◌, ◌<◌, ◌++◌, reverse, length-append, length-drop, ◌≡◌, refl, inl, inr,
  Bool, true, ◌||◌, List, [], ◌∷◌, arith, leb, take, length, length-take, Bool-cases,
}
use mouseion.Text.{Text, rstrip, strip}
use mathlib.Core.List.{reverse-cons}
use mouseion.Qa.History.{Message, last_of, bounded, bound_from, bound_history}
use mouseion.Qa.{SectionGrounding, PaperGrounding, sections_chars, total_chars}
use mouseion.Qa.Budget.{
  pop, overhead, cut, trim_sections, weakest_from, weakest, evict, with_sections, trim_first,
  budget_grounding_material,
}

length-rstrip : (t : Text) → length (rstrip t) ≤ length t
unfolding rstrip
length-rstrip [] = omega arith
length-rstrip (c ∷ t) = ground (arith, length-rstrip t)

length-cut : (available : ℕ) (s : SectionGrounding) → length (cut available s).text ≤ available
length-cut available s =
    omega (arith, length-rstrip (take available s.text), length-take available s.text)

trim_sections-le :
    (title : Text) (remaining : ℕ) (sections : List SectionGrounding)
    → sections_chars title (trim_sections title remaining sections) ≤ remaining
unfolding trim_sections
trim_sections-le title remaining [] = omega arith
trim_sections-le title remaining (s ∷ more) = ground (
  arith,
  length-cut (remaining - overhead title s) s,
  trim_sections-le title
      (remaining - (overhead title s + length (cut (remaining - overhead title s) s).text)) more,
  trim_sections-le title remaining more,
)

module _ {F : Type 0} (lower : F → F → Bool) where
  with_sections-le :
      (m : PaperGrounding F) (sections : List SectionGrounding) (n : ℕ)
      → sections_chars m.title sections ≤ n
      → total_chars (with_sections lower m sections) ≤ n
  with_sections-le m [] n le = omega arith
  with_sections-le m (s ∷ more) n le = omega (arith, le)

  trim_first-le :
      (budget_chars : ℕ) (ms : List (PaperGrounding F))
      → total_chars (trim_first lower budget_chars ms) ≤ budget_chars
  trim_first-le budget_chars [] = omega arith
  trim_first-le budget_chars (m ∷ ms) =
      elim (Bool-cases (leb (total_chars (m ∷ ms)) budget_chars)) [
        | inl fits ↦ ground (arith, fits)
        | inr over ↦ rw over (
            with_sections-le m (trim_sections m.title budget_chars m.sections) budget_chars
              (trim_sections-le m.title budget_chars m.sections))
      ]

  -- The material that is kept takes no more characters than the budget, headings and the margin of 48
  -- for each section included, whatever the scores are.
  pub budget_grounding_material-le :
      (materials : List (PaperGrounding F)) (budget_chars : ℕ)
      → total_chars (budget_grounding_material lower materials budget_chars) ≤ budget_chars
  unfolding budget_grounding_material
  budget_grounding_material-le materials budget_chars =
      trim_first-le budget_chars (evict lower (length materials) budget_chars materials)

length-pop :
    {A : Type 0} (i : ℕ) (xs : List A) → i < length xs → suc (length (pop i xs)) ≡ length xs
length-pop i [] lt = absurd (omega (arith, lt))
length-pop zero (x ∷ xs) lt = refl
length-pop (suc i) (x ∷ xs) lt = omega (arith, length-pop i xs (omega (arith, lt)))

module _ {F : Type 0} (lower : F → F → Bool) where
  weakest_from-lt :
      (i at : ℕ) (best : F) (ms : List (PaperGrounding F))
      → at < i
      → weakest_from lower i at best ms < i + length ms
  weakest_from-lt i at best [] lt = omega (arith, lt)
  weakest_from-lt i at best (m ∷ ms) lt =
      ground (arith, lt, weakest_from-lt (suc i) at best ms, weakest_from-lt (suc i) i m.score ms)

  -- The number of the items is enough fuel for the eviction: it stops because one item is left, or
  -- because the rest fits.
  pub evict-settled :
      (fuel budget_chars : ℕ) (ms : List (PaperGrounding F))
      → length ms ≤ fuel
      → let kept = evict lower fuel budget_chars ms in
        (leb (length kept) 1 || leb (total_chars kept) budget_chars) ≡ true
  unfolding evict
  evict-settled zero budget_chars [] enough = refl
  evict-settled zero budget_chars (m ∷ ms) enough = absurd (omega (arith, enough))
  evict-settled (suc fuel) budget_chars [] enough = refl
  evict-settled (suc fuel) budget_chars (m ∷ ms) enough =
      elim (Bool-cases (leb (length (m ∷ ms)) 1 || leb (total_chars (m ∷ ms)) budget_chars)) [
        | inl stop ↦ rw (stop, evict) stop
        | inr more ↦
            rw (more, evict)
              (evict-settled fuel budget_chars (pop (weakest lower (m ∷ ms)) (m ∷ ms)) (
                omega (
                  arith,
                  enough,
                  length-pop (weakest lower (m ∷ ms)) (m ∷ ms)
                      (omega (arith, weakest_from-lt 1 0 m.score ms (omega arith))),
                )))
      ]

-- the characters of a history
abbrev pub history_chars : List Message → ℕ
history_chars [] = 0
history_chars (m ∷ ms) = length m.content + history_chars ms

history_chars-append :
    (xs ys : List Message) → history_chars (xs ++ ys) ≡ history_chars xs + history_chars ys
history_chars-append [] ys = omega arith
history_chars-append (x ∷ xs) ys = omega (arith, history_chars-append xs ys)

history_chars-reverse : (xs : List Message) → history_chars (reverse xs) ≡ history_chars xs
history_chars-reverse [] = refl
history_chars-reverse (x ∷ xs) =
    rw (reverse-cons x xs)
      (omega (arith, history_chars-append (reverse xs) (x ∷ []), history_chars-reverse xs))

length-reverse : (xs : List Message) → length (reverse xs) ≡ length xs
length-reverse [] = refl
length-reverse (x ∷ xs) =
    rw (reverse-cons x xs) (omega (arith, length-append (reverse xs) (x ∷ []), length-reverse xs))

bound_from-le :
    (remaining : ℕ) (ms : List Message)
    → (history_chars (bound_from remaining ms) ≤ remaining)
      × (length (bound_from remaining ms) ≤ length ms)
unfolding bound_from
bound_from-le remaining [] = (omega arith, omega arith)
bound_from-le remaining (m ∷ ms) =
    let kept : Message = bounded remaining m in
    ground (
      arith,
      bound_from-le (remaining - length kept.content) ms,
      bound_from-le remaining ms,
      length-drop (length (strip m.content) - remaining) (strip m.content),
    )

-- A bounded history has no more messages than it may, and no more characters than its budget.
pub bound_history-le :
    (messages : List Message) (max_messages budget_chars : ℕ)
    → (history_chars (bound_history messages max_messages budget_chars) ≤ budget_chars)
      × (length (bound_history messages max_messages budget_chars) ≤ max_messages)
unfolding bound_history
bound_history-le messages max_messages budget_chars =
    let newest : List Message = reverse (last_of max_messages messages) in
    ground (
      arith,
      bound_from-le budget_chars newest,
      history_chars-reverse (bound_from budget_chars newest),
      length-reverse (bound_from budget_chars newest),
      length-reverse (last_of max_messages messages),
      length-drop (length messages - max_messages) messages,
    )
