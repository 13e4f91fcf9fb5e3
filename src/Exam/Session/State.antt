-- ===== src/Exam/Session/State.antt =====
-- What the stored state of an exam is when it is read back.
use mouseion.Prelude.{
  ℕ, ◌≤◌, ◌≡◌, refl, Bool, true, false, not, ◌&&◌, Option, none, some, List, [], ◌∷◌, arith,
  if◌then◌else◌, is_empty, length, Bool-cases, inl, inr,
}
use mouseion.Text.{Text, is_space, strip, squeeze, lstrip, rstrip, squeeze_from}
use mouseion.Text.Spaces.{squeeze-strip-idempotent}
use mouseion.Exam.Schema.{ExamProbe, tidy, sized, validate_probe, validate_probes, cons_valid}
use mouseion.Exam.Session.{no_state, from_raw}

length-lstrip : (t : Text) → length (lstrip t) ≤ length t
unfolding lstrip
length-lstrip [] = omega arith
length-lstrip (c ∷ t) = ground (arith, length-lstrip t)

length-rstrip : (t : Text) → length (rstrip t) ≤ length t
unfolding rstrip
length-rstrip [] = omega arith
length-rstrip (c ∷ t) = ground (arith, length-rstrip t)

length-squeeze_from : (b : Bool) (t : Text) → length (squeeze_from b t) ≤ length t
unfolding squeeze_from
length-squeeze_from b [] = omega arith
length-squeeze_from b (c ∷ t) = ground (arith, length-squeeze_from (is_space c) t)

length-tidy : (t : Text) → length (tidy t) ≤ length t
unfolding strip squeeze
length-tidy t = omega (
  arith,
  length-rstrip (lstrip (squeeze_from false t)),
  length-lstrip (squeeze_from false t),
  length-squeeze_from false t,
)

-- The measure of an accepted text, tidied, only asks whether anything is left.
sized-tidy : (n : ℕ) (t : Text) → sized n t ≡ true → sized n (tidy t) ≡ not (is_empty (tidy t))
sized-tidy n t h = go (tidy t) (length-tidy t)
  where
    go : (u : Text) → length u ≤ length t → sized n u ≡ not (is_empty u)
    go [] le = ground arith
    go (c ∷ u) le = ground arith

-- no field of the probe is empty
abbrev pub has_ink : ExamProbe → Bool
has_ink p = not (is_empty p.question) && (not (is_empty p.section) && not (is_empty p.gap))

abbrev fits : ExamProbe → Bool
fits p = sized 1000 p.question && (sized 300 p.section && sized 1000 p.gap)

abbrev tidied : ExamProbe → ExamProbe
tidied p = record p { question = tidy p.question; section = tidy p.section; gap = tidy p.gap }

tidied-fits : (raw : ExamProbe) → fits raw ≡ true → fits (tidied raw) ≡ has_ink (tidied raw)
tidied-fits raw h =
    rw
      (
        sized-tidy 1000 raw.question (ground arith),
        sized-tidy 300 raw.section (ground arith),
        sized-tidy 1000 raw.gap (ground arith),
      )
      refl

tidied-tidied : (raw : ExamProbe) → tidied (tidied raw) ≡ tidied raw
tidied-tidied raw =
    rw
      (
        squeeze-strip-idempotent raw.question,
        squeeze-strip-idempotent raw.section,
        squeeze-strip-idempotent raw.gap,
      )
      refl

-- A validated probe is accepted again where none of its texts is blank, and else refused.
validate_probe-again :
    (raw p : ExamProbe)
    → validate_probe raw ≡ some p
    → validate_probe p ≡ (if has_ink p then some p else none)
validate_probe-again raw p h = elim (Bool-cases (fits raw)) [
  | inr other ↦ cc (rw other at h)
  | inl good ↦
      let same : tidied raw ≡ p = ground (arith, rw good at h) in
      rw (← same, tidied-fits raw good, tidied-tidied raw) refl
]

abbrev pub all_ink : List ExamProbe → Bool
all_ink [] = true
all_ink (p ∷ ps) = has_ink p && all_ink ps

cons_valid-parts :
    (o : Option ExamProbe) (rest : Option (List ExamProbe)) (ps : List ExamProbe)
    → cons_valid o rest ≡ some ps
    → (p : ExamProbe) × (qs : List ExamProbe) × (o ≡ some p) × (rest ≡ some qs) × (ps ≡ p ∷ qs)
cons_valid-parts none rest ps h = cc
cons_valid-parts (some p) none ps h = cc
cons_valid-parts (some p) (some qs) ps h = (p, qs, refl, refl, ground (arith, h))

validate_probes-again :
    (raw ps : List ExamProbe)
    → validate_probes raw ≡ some ps
    → validate_probes ps ≡ (if all_ink ps then some ps else none)
validate_probes-again [] ps h = ground (arith, h)
validate_probes-again (r ∷ raw) ps h =
    let (p, qs, first, rest, same) =
      cons_valid-parts (validate_probe r) (validate_probes raw) ps h in
    rw (same, validate_probe-again r p first, validate_probes-again raw qs rest) (ground arith)

-- The state of a validated plan is read back as it was stored where no text of a probe is blank, and
-- is lost otherwise: a text of white space passes the measure and is tidied to nothing after it.
pub from_raw-validated :
    (raw ps : List ExamProbe) (i : ℕ) (pushback : Bool)
    → validate_probes raw ≡ some ps
    → i ≤ length ps
    → from_raw (record { probes = ps; probe_index = i; pushback_used = pushback }) ≡ (
        if all_ink ps
        then record { probes = ps; probe_index = i; pushback_used = pushback }
        else no_state)
unfolding from_raw
from_raw-validated raw ps i pushback h le = elim (Bool-cases (all_ink ps)) [
  | inl ink ↦ ground (arith, validate_probes-again raw ps h, ink)
  | inr blank ↦ ground (arith, validate_probes-again raw ps h, blank)
]
