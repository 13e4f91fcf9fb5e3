-- ===== src/Exam/Schema/Valid.antt =====
-- What a validated plan and a validated verdict promise.
use mouseion.Prelude.{
  ◌≤◌, ◌≡◌, inl, inr, Bool, true, not, ◌&&◌, List, [], ◌∷◌, map, arith, any, All, is_empty, length,
  keep, leb, Bool-cases, Option-cases,
}
use mouseion.Text.{Text}
use mouseion.Effect.{ok}
use mouseion.Exam.Schema.{
  ExamProbe, member, validate_probes, not_allowed, check_plan, validate_plan, ExamVerdict,
  verdict_fits, tidy_verdict, references, check_verdict, validate_verdict,
}

-- Where sections were offered, all of these are among them.
abbrev pub Offered : List Text → List Text → Type 0
Offered allowed sections = All (λ section. member section allowed ≡ true) sections

kept_none :
    (p : Text → Bool) (xs : List Text)
    → is_empty (keep (λ x. not (p x)) xs) ≡ true
    → All (λ x. p x ≡ true) xs
kept_none p [] h = tt
kept_none p (x ∷ xs) h = (ground arith, kept_none p xs (ground arith))

pub not_allowed-Offered :
    (a : Text) (others : List Text) (sections : List Text)
    → is_empty (not_allowed (a ∷ others) sections) ≡ true
    → Offered (a ∷ others) sections
not_allowed-Offered a others sections h = kept_none (λ x. member x (a ∷ others)) sections h

check_plan-passed :
    (allowed : List Text) (ps qs : List ExamProbe)
    → check_plan allowed ps ≡ ok qs
    → (qs ≡ ps)
      × (any (λ p. p.targets_gap) ps ≡ true)
      × (is_empty (not_allowed allowed (map (λ p. p.section) ps)) ≡ true)
check_plan-passed allowed ps qs h = ground (arith, h)

-- A plan that validates has two or three probes, targets a gap, and names sections that were
-- offered, where any were.
pub validate_plan-grounded :
    (a : Text) (others : List Text) (raw probes : List ExamProbe)
    → validate_plan (a ∷ others) raw ≡ ok probes
    → (2 ≤ length probes)
      × (length probes ≤ 3)
      × (any (λ p. p.targets_gap) probes ≡ true)
      × Offered (a ∷ others) (map (λ p. p.section) probes)
unfolding validate_plan
validate_plan-grounded a others raw probes h = elim (Option-cases (validate_probes raw)) [
  | inl bad ↦ cc (bad, h)
  | inr (ps, good) ↦ elim (Bool-cases (leb 2 (length ps) && leb (length ps) 3)) [
    | inr other ↦ cc (rw (good, other, validate_plan) at h)
    | inl two_or_three ↦
        let (same, gap, none_out) =
          check_plan-passed (a ∷ others) ps probes (rw (good, two_or_three, validate_plan) at h) in
        rw same (ground arith, ground arith, gap, not_allowed-Offered a others _ none_out)
  ]
]

check_verdict-passed :
    (allowed : List Text) (u v : ExamVerdict)
    → check_verdict allowed u ≡ ok v
    → (v ≡ u) × (is_empty (not_allowed allowed (references u)) ≡ true)
check_verdict-passed allowed u v h = ground (arith, h)

-- A verdict that validates names sections that were offered, where any were.
pub validate_verdict-grounded :
    (a : Text) (others : List Text) (raw v : ExamVerdict)
    → validate_verdict (a ∷ others) raw ≡ ok v
    → Offered (a ∷ others) (references v)
unfolding validate_verdict
validate_verdict-grounded a others raw v h = elim (Bool-cases (verdict_fits raw)) [
  | inr other ↦ cc (rw (other, validate_verdict) at h)
  | inl fits ↦
      let (same, none_out) =
        check_verdict-passed (a ∷ others) (tidy_verdict raw) v (rw (fits, validate_verdict) at h) in
      rw same (not_allowed-Offered a others _ none_out)
]
