-- ===== src/Exam/Schema.antt =====
-- backend/src/mouseion/services/schemas.py: the examiner's structured output and its validators. A
-- value comes from JSON of the right shape; what is checked here is what the fields and the
-- validators require of it.
pub mod Valid
use mouseion.Prelude.{
  ℕ, Bool, true, false, not, ◌&&◌, ◌||◌, Option, none, some, List, [], ◌∷◌, ◌++◌, map, leb, any,
  if◌then◌else◌, is_empty, length, keep,
}
use mouseion.Text.{Text, text_eq, strip, squeeze}
use mouseion.Effect.{Result, ok, err}

-- `re.sub(r"\s+", " ", value).strip()`
abbrev pub tidy : Text → Text
tidy value = strip (squeeze value)

-- `Field(min_length=1, max_length=n)`
abbrev pub sized : ℕ → Text → Bool
sized n value = leb 1 (length value) && leb (length value) n

-- `value in values`
abbrev pub member : Text → List Text → Bool
member value values = any (text_eq value) values

pub data Focus : Type 0 where
  methodology results limitations results_and_limitations : Focus

pub record ExamProbe : Type 0 where
  pub question : Text
  pub section : Text
  pub focus : Focus
  pub targets_gap : Bool
  pub gap : Text

-- what a validator objects to; pydantic writes the message
pub data Problem : Type 0 where
  bad_field bad_count no_gap no_methodology no_results no_limitations : Problem
  invented : List Text → Problem

-- The fields are measured first and tidied after that.
abbrev pub validate_probe : ExamProbe → Option ExamProbe
validate_probe p =
    if sized 1000 p.question && (sized 300 p.section && sized 1000 p.gap)
    then some (record p { question = tidy p.question; section = tidy p.section; gap = tidy p.gap })
    else none

abbrev pub cons_valid {ℓ} : {A : Type ℓ} → Option A → Option (List A) → Option (List A)
cons_valid (some a) (some rest) = some (a ∷ rest)
cons_valid (some a) none = none
cons_valid none rest = none

abbrev pub validate_probes : List ExamProbe → Option (List ExamProbe)
validate_probes [] = some []
validate_probes (p ∷ ps) = cons_valid (validate_probe p) (validate_probes ps)

abbrev pub covers_methodology : Focus → Bool
covers_methodology Focus.methodology = true
covers_methodology other = false

abbrev pub covers_results : Focus → Bool
covers_results Focus.results = true
covers_results Focus.results_and_limitations = true
covers_results other = false

abbrev pub covers_limitations : Focus → Bool
covers_limitations Focus.limitations = true
covers_limitations Focus.results_and_limitations = true
covers_limitations other = false

-- the sections that were not offered, where any were
abbrev pub not_allowed : List Text → List Text → List Text
not_allowed [] sections = []
not_allowed (a ∷ others) sections = keep (λ section. not (member section (a ∷ others))) sections

-- `_grounded_and_gap_targeted`
abbrev pub check_plan : List Text → List ExamProbe → Result Problem (List ExamProbe)
check_plan allowed probes =
    if not (is_empty (not_allowed allowed (map (λ p. p.section) probes)))
    then err (invented (not_allowed allowed (map (λ p. p.section) probes)))
    else if not (any (λ p. p.targets_gap) probes)
    then err no_gap
    else if not (any (λ p. covers_methodology p.focus) probes)
    then err no_methodology
    else if not (any (λ p. covers_results p.focus) probes)
    then err no_results
    else if not (any (λ p. covers_limitations p.focus) probes)
    then err no_limitations
    else ok probes

abbrev pub check_count : List Text → Option (List ExamProbe) → Result Problem (List ExamProbe)
check_count allowed none = err bad_field
check_count allowed (some probes) =
    if leb 2 (length probes) && leb (length probes) 3
    then check_plan allowed probes
    else err bad_count

-- `ExamProbePlan`
unfoldable pub validate_plan : List Text → List ExamProbe → Result Problem (List ExamProbe)
validate_plan allowed probes = check_count allowed (validate_probes probes)

pub record RubricDimension : Type 0 where
  pub score : ℕ
  pub justification : Text

pub record ExamRubric : Type 0 where
  pub problem_understanding : RubricDimension
  pub method_understanding : RubricDimension
  pub results_and_limitations : RubricDimension

pub record ExamMisconception : Type 0 where
  pub what_user_said : Text
  pub what_paper_says : Text
  pub section : Text

pub record ExamOverall : Type 0 where
  pub score : ℕ
  pub summary : Text

pub record ExamVerdict : Type 0 where
  pub rubric : ExamRubric
  pub misconceptions : List ExamMisconception
  pub reread : List Text
  pub overall : ExamOverall

-- `Field(ge=1, le=5)`
abbrev pub graded : ℕ → Bool
graded score = leb 1 score && leb score 5

abbrev pub dimension_fits : RubricDimension → Bool
dimension_fits d = graded d.score && sized 2000 d.justification

abbrev pub tidy_dimension : RubricDimension → RubricDimension
tidy_dimension d = record d { justification = tidy d.justification }

abbrev pub misconception_fits : ExamMisconception → Bool
misconception_fits m =
    sized 2000 m.what_user_said && (sized 2000 m.what_paper_says && sized 300 m.section)

abbrev pub tidy_misconception : ExamMisconception → ExamMisconception
tidy_misconception m = record {
  what_user_said = tidy m.what_user_said;
  what_paper_says = tidy m.what_paper_says;
  section = tidy m.section;
}

abbrev pub all_fit : List ExamMisconception → Bool
all_fit [] = true
all_fit (m ∷ ms) = misconception_fits m && all_fit ms

-- `_tidy_reread`, with `result` so far
abbrev pub tidy_reread : List Text → List Text → List Text
tidy_reread result [] = result
tidy_reread result (raw ∷ rest) =
    tidy_reread
      (if is_empty (tidy raw) || member (tidy raw) result then result else result ++ tidy raw ∷ [])
      rest

abbrev pub verdict_fits : ExamVerdict → Bool
verdict_fits v =
    dimension_fits v.rubric.problem_understanding
    && (dimension_fits v.rubric.method_understanding
        && (dimension_fits v.rubric.results_and_limitations
            && (leb (length v.misconceptions) 50
                && (all_fit v.misconceptions
                    && (leb (length v.reread) 20
                        && (graded v.overall.score && sized 500 v.overall.summary))))))

abbrev pub tidy_rubric : ExamRubric → ExamRubric
tidy_rubric r = record {
  problem_understanding = tidy_dimension r.problem_understanding;
  method_understanding = tidy_dimension r.method_understanding;
  results_and_limitations = tidy_dimension r.results_and_limitations;
}

abbrev pub tidy_verdict : ExamVerdict → ExamVerdict
tidy_verdict v = record {
  rubric = tidy_rubric v.rubric;
  misconceptions = map tidy_misconception v.misconceptions;
  reread = tidy_reread [] v.reread;
  overall = record (v.overall) { summary = tidy v.overall.summary };
}

-- the sections that a verdict names
abbrev pub references : ExamVerdict → List Text
references v = map (λ m. m.section) v.misconceptions ++ v.reread

-- `_references_real_sections`
abbrev pub check_verdict : List Text → ExamVerdict → Result Problem ExamVerdict
check_verdict allowed v =
    if is_empty (not_allowed allowed (references v))
    then ok v
    else err (invented (not_allowed allowed (references v)))

-- `ExamVerdict`
unfoldable pub validate_verdict : List Text → ExamVerdict → Result Problem ExamVerdict
validate_verdict allowed v =
    if verdict_fits v then check_verdict allowed (tidy_verdict v) else err bad_field
