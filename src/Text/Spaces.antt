-- ===== src/Text/Spaces.antt =====
-- Squeezing runs of white space and stripping the ends gives a normal form.
use mouseion.Prelude.{
  ◌≡◌, refl, ◌∙◌, ap, Bool, true, false, ◌&&◌, [], ◌∷◌, arith, Bool-cases, inl, inr, is_empty,
}
use mouseion.Text.{Text, is_space, lstrip, rstrip, strip, squeeze_from, squeeze}

-- White space occurs as single blanks between other characters, and not at the front if `after`.
abbrev IsSqueezed : Bool → Text → Type 0
IsSqueezed after [] = Unit
IsSqueezed after (c ∷ s) =
    (is_space c ≡ true → (after ≡ false) × (c ≡ 32)) × IsSqueezed (is_space c) s

IsSqueezed-weaken : (after : Bool) (s : Text) → IsSqueezed after s → IsSqueezed false s
IsSqueezed-weaken after [] h = tt
IsSqueezed-weaken after (c ∷ s) h = (λ e. (refl, (h.0 e).1), h.1)

blank-is_space : is_space 32 ≡ true
unfolding is_space
blank-is_space = refl

squeeze_from-IsSqueezed : (after : Bool) (s : Text) → IsSqueezed after (squeeze_from after s)
unfolding squeeze_from
squeeze_from-IsSqueezed after [] = tt
squeeze_from-IsSqueezed after (c ∷ s) = elim (Bool-cases (is_space c)) [
  | inl e ↦ elim (Bool-cases after) [
    | inl a ↦ rw (e, a) (squeeze_from-IsSqueezed true s)
    | inr a ↦ rw (e, a) (λ _. (refl, refl), rw blank-is_space (squeeze_from-IsSqueezed true s))
  ]
  | inr e ↦ rw e (λ h. cc (h, e), rw e (squeeze_from-IsSqueezed false s))
]

squeeze_from-fixed : (after : Bool) (s : Text) → IsSqueezed after s → squeeze_from after s ≡ s
unfolding squeeze_from
squeeze_from-fixed after [] h = refl
squeeze_from-fixed after (c ∷ s) h = ground (arith, squeeze_from-fixed (is_space c) s h.1)

lstrip-IsSqueezed : (after : Bool) (s : Text) → IsSqueezed after s → IsSqueezed false (lstrip s)
unfolding lstrip
lstrip-IsSqueezed after [] h = tt
lstrip-IsSqueezed after (c ∷ s) h = elim (Bool-cases (is_space c)) [
  | inl e ↦ rw e (lstrip-IsSqueezed (is_space c) s h.1)
  | inr e ↦ rw e (IsSqueezed-weaken after (c ∷ s) h)
]

rstrip-IsSqueezed : (after : Bool) (s : Text) → IsSqueezed after s → IsSqueezed after (rstrip s)
unfolding rstrip
rstrip-IsSqueezed after [] h = tt
rstrip-IsSqueezed after (c ∷ s) h = elim (Bool-cases (is_space c && is_empty (rstrip s))) [
  | inl e ↦ rw e tt
  | inr e ↦ rw e (h.0, rstrip-IsSqueezed (is_space c) s h.1)
]

rstrip-rstrip : (s : Text) → rstrip (rstrip s) ≡ rstrip s
unfolding rstrip
rstrip-rstrip [] = refl
rstrip-rstrip (c ∷ s) = ground (arith, rstrip-rstrip s)

-- The first character, if any, is not white space.
abbrev StartsInk : Text → Type 0
StartsInk [] = Unit
StartsInk (c ∷ s) = is_space c ≡ false

lstrip-StartsInk : (s : Text) → StartsInk (lstrip s)
unfolding lstrip
lstrip-StartsInk [] = tt
lstrip-StartsInk (c ∷ s) = elim (Bool-cases (is_space c)) [
  | inl e ↦ rw e (lstrip-StartsInk s)
  | inr e ↦ rw e e
]

rstrip-StartsInk : (s : Text) → StartsInk s → StartsInk (rstrip s)
unfolding rstrip
rstrip-StartsInk [] h = tt
rstrip-StartsInk (c ∷ s) h = rw h h

lstrip-fixed : (s : Text) → StartsInk s → lstrip s ≡ s
unfolding lstrip
lstrip-fixed [] h = refl
lstrip-fixed (c ∷ s) h = rw h

strip-IsSqueezed : (s : Text) → IsSqueezed false s → IsSqueezed false (strip s)
unfolding strip
strip-IsSqueezed s h = rstrip-IsSqueezed false (lstrip s) (lstrip-IsSqueezed false s h)

pub strip-strip : (s : Text) → strip (strip s) ≡ strip s
unfolding strip
strip-strip s =
    ap rstrip (lstrip-fixed (rstrip (lstrip s)) (rstrip-StartsInk (lstrip s) (lstrip-StartsInk s)))
    ∙ rstrip-rstrip (lstrip s)

-- Squeezing then stripping is idempotent.
pub squeeze-strip-idempotent : (s : Text) → strip (squeeze (strip (squeeze s))) ≡ strip (squeeze s)
unfolding squeeze
squeeze-strip-idempotent s =
    ap strip (
      squeeze_from-fixed false (strip (squeeze s))
        (strip-IsSqueezed (squeeze s) (squeeze_from-IsSqueezed false s)))
    ∙ strip-strip (squeeze s)
