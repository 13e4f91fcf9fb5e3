-- ===== src/Extraction.antt =====
-- backend/src/mouseion/services/schemas.py: the payload of the combined ingest call, and what its
-- validators make of it. What they refuse is none; pydantic writes the messages.
pub mod Assignments
pub mod Named
mod Tests
use mouseion.Prelude.{
  ℕ, Bool, true, false, not, ◌&&◌, ◌||◌, Option, none, some, List, [], ◌∷◌, ◌==◌, any, keep, leb,
  map, reverse, if◌then◌else◌, is_empty, is_some, length,
}
use mouseion.Text.{Text, strip, squeeze}
use mouseion.Taxonomy.Create.{TopicAssignment}
use mouseion.Exam.Schema.{cons_valid}

-- `re.sub(r"\s+", " ", value).strip()`
abbrev pub one_line : Text → Text
one_line value = strip (squeeze value)

-- a character of `"#,.;:/\\"`
abbrev pub is_mark : ℕ → Bool
is_mark c = c == 35 || c == 44 || c == 46 || c == 59 || c == 58 || c == 47 || c == 92

abbrev pub drop_marks : Text → Text
drop_marks [] = []
drop_marks (c ∷ t) = let rest = drop_marks t in if is_mark c then rest else c ∷ t

abbrev pub drop_marks_end : Text → Text
drop_marks_end [] = []
drop_marks_end (c ∷ t) =
    let rest = drop_marks_end t in if is_mark c && is_empty rest then [] else c ∷ rest

-- `.strip("#,.;:/\\")`
abbrev pub strip_marks : Text → Text
strip_marks t = drop_marks_end (drop_marks t)

-- `[A-Za-z]`
abbrev pub is_letter : ℕ → Bool
is_letter c = (leb 65 c && leb c 90) || (leb 97 c && leb c 122)

abbrev pub check_name : Text → Option (Option Text)
check_name name =
    if is_empty name
    then some none
    else if not (leb (length name) 60)
    then none
    else if not (any is_letter name)
    then none
    else some (some name)

-- `_clean_name`
abbrev pub clean_name : Option Text → Option (Option Text)
clean_name none = some none
clean_name (some value) = check_name (strip_marks (one_line value))

-- `_exactly_one`
abbrev pub exactly_one : TopicAssignment → Option TopicAssignment
exactly_one t =
    if is_some t.existing_topic_id && is_some t.new_topic_name
    then none
    else if not (is_some t.existing_topic_id) && not (is_some t.new_topic_name)
    then none
    else if is_some t.existing_topic_id && is_some t.parent
    then some (record t { parent = none })
    else some t

abbrev pub with_name : TopicAssignment → Option (Option Text) → Option TopicAssignment
with_name raw none = none
with_name raw (some name) = exactly_one (record raw { new_topic_name = name })

unfoldable pub validate_assignment : TopicAssignment → Option TopicAssignment
validate_assignment raw = with_name raw (clean_name raw.new_topic_name)

abbrev pub validate_all : List TopicAssignment → Option (List TopicAssignment)
validate_all [] = some []
validate_all (t ∷ ts) = cons_valid (validate_assignment t) (validate_all ts)

pub record IngestMetadata : Type 0 where
  pub title : Option Text
  pub authors : Option (List Text)
  pub year : Option ℕ
  pub venue : Option Text
  pub abstract : Option Text

-- `cleaned or None`
abbrev pub ink_or_none : Text → Option Text
ink_or_none t = if is_empty t then none else some t

-- `_tidy`
abbrev pub tidy_field : Option Text → Option Text
tidy_field none = none
tidy_field (some value) = ink_or_none (one_line value)

abbrev pub list_or_none : List Text → Option (List Text)
list_or_none l = if is_empty l then none else some l

-- `_tidy_authors`
abbrev pub tidy_authors : Option (List Text) → Option (List Text)
tidy_authors none = none
tidy_authors (some value) = list_or_none (keep (λ a. not (is_empty a)) (map one_line value))

-- `_sane_year`
abbrev pub sane_year : Option ℕ → Bool
sane_year none = true
sane_year (some y) = leb 1800 y && leb y 2200

abbrev pub validate_metadata : IngestMetadata → Option IngestMetadata
validate_metadata m =
    if sane_year m.year
    then some (record m {
      title = tidy_field m.title;
      authors = tidy_authors m.authors;
      venue = tidy_field m.venue;
      abstract = tidy_field m.abstract;
    })
    else none

pub record IngestExtraction : Type 0 where
  pub metadata : IngestMetadata
  pub topics : List TopicAssignment
  pub summary_short : Text
  pub summary_long : Text

-- `_non_empty`, and `_one_sentence` and `_bounded` on what it leaves
abbrev pub summaries_fit : IngestExtraction → Bool
summaries_fit e =
    not (is_empty (one_line e.summary_short))
    && (not (is_empty (one_line e.summary_long)) && leb (length (one_line e.summary_short)) 400)

abbrev pub extraction_of :
    IngestExtraction
    → Option IngestMetadata
    → Option (List TopicAssignment)
    → Option IngestExtraction
extraction_of e none topics = none
extraction_of e (some m) none = none
extraction_of e (some m) (some topics) =
    if summaries_fit e && leb (length topics) 6
    then some (record {
      metadata = m;
      topics = topics;
      summary_short = one_line e.summary_short;
      summary_long = one_line e.summary_long;
    })
    else none

unfoldable pub validate_extraction : IngestExtraction → Option IngestExtraction
validate_extraction e = extraction_of e (validate_metadata e.metadata) (validate_all e.topics)
