-- ===== src/Tracker/Cards.antt =====
-- Texts made of a job and a profile: the screening card of app/services/screening_card.py with the
-- bounds of app/schemas/screening_card.py, and app/services/match/formatters.py. `str` of a JSON
-- value that is no text, and `json.dumps`, are parameters.
pub mod Bounds
use Prim.Native.String.{◌++◌ as ◌+++◌}
use ai_career_os.Common.{
  ℕ, zero, suc, ◌+◌, String, Bool, true, false, not, ◌&&◌, ◌||◌, Option, none, some, List, [], ◌∷◌,
  ◌++◌, map, take, leb, str_eq, if◌then◌else◌, is_empty,
}
use ai_career_os.Common.Text.{str_len, strip, rstrip, slice_to, join, truthy, or_blank}
use ai_career_os.Json.{
  Value, Items, Fields, nil, cons, null, text, array, object, end, field, get, set, or_empty,
  fields_truthy,
}
use ai_career_os.Tracker.Model.{ProfileRow, JobRow}
use ai_career_os.Tracker.Results.{Validated, valid, invalid, array_of}
use ai_career_os.Tracker.AnalysisApi.{text_or_null}

abbrev pub top_requirements_limit : ℕ
top_requirements_limit = 5

-- FALLBACK_SUMMARY_CHARS
abbrev pub fallback_summary_chars : ℕ
fallback_summary_chars = 200

unfoldable pub shortened : String → String
unfolding str_len slice_to rstrip
shortened stripped =
    if leb (str_len stripped) fallback_summary_chars
    then stripped
    else rstrip (slice_to 199 stripped) +++ "…"

unfoldable pub fallback_summary : String → String
unfolding shortened strip
fallback_summary description = shortened (strip description)

pub record ScreeningCard : Type 0 where
  pub job_id : ℕ
  pub title : String
  pub company : String
  pub location : Option String
  pub top_requirements : List String
  pub summary : String

-- `summary: str = Field(min_length=1, max_length=500)`
unfoldable pub validate_card : ScreeningCard → Validated ScreeningCard
unfolding str_len
validate_card card =
    if leb 1 (str_len card.summary) && leb (str_len card.summary) 500
    then valid card
    else invalid "summary"

module _ {F : Type 0} (str_other : Value F → String) where
  abbrev pub item_str : Value F → String
  item_str (text s) = s
  item_str v = str_other v

  -- `[str(item).strip() for item in items if str(item).strip()]`
  unfoldable pub cleaned : Items F → List String
  unfolding strip
  cleaned nil = []
  cleaned (cons item items) =
      let rest = cleaned items in
      let stripped = strip (item_str item) in if str_eq stripped "" then rest else stripped ∷ rest

  -- the same of a value that is a list, and of any other
  abbrev pub cleaned_list : Option (Value F) → List String
  cleaned_list (some (array items)) = cleaned items
  cleaned_list _ = []

  unfoldable pub top_requirements : Fields F → List String
  unfolding cleaned
  top_requirements raw_metadata =
      take top_requirements_limit (cleaned_list (get "requirements" raw_metadata))

  -- the stripped text under a key, if it is a text and not blank
  abbrev pub blank_or_text : Option (Value F) → Option String
  blank_or_text (some (text s)) = if str_eq (strip s) "" then none else some (strip s)
  blank_or_text _ = none

  abbrev pub or_else : String → Option String → String
  or_else default none = default
  or_else default (some s) = s

  unfoldable pub build_screening_card : JobRow F → Validated ScreeningCard
  unfolding top_requirements fallback_summary validate_card strip
  build_screening_card job =
      let raw_metadata = or_empty job.raw_metadata in
      validate_card (record {
        job_id = job.id;
        title = job.title;
        company = job.company;
        location = job.location;
        top_requirements = top_requirements raw_metadata;
        summary =
            or_else (fallback_summary job.description)
              (blank_or_text (get "match_summary" raw_metadata));
      })

  -- `card.model_dump(mode="json")`
  abbrev pub card_dump : (ℕ → String) → ScreeningCard → Fields F
  card_dump uuid_str card = field "job_id" (text (uuid_str card.job_id)) (
      field "title" (text card.title) (
        field "company" (text card.company) (
          field "location" (text_or_null card.location) (
            field "top_requirements" (array (array_of text card.top_requirements))
              (field "summary" (text card.summary) end)))))

  abbrev pub with_card_json :
      (ℕ → String) → Fields F → Validated ScreeningCard → Validated (Fields F)
  with_card_json uuid_str metadata (invalid m) = invalid m
  with_card_json uuid_str metadata (valid card) =
      valid (set "screening_card" (object (card_dump uuid_str card)) metadata)

  unfoldable pub attach_screening_card_to_metadata :
      (ℕ → String) → Option (Fields F) → JobRow F → Validated (Fields F)
  unfolding build_screening_card
  attach_screening_card_to_metadata uuid_str raw_metadata job =
      with_card_json uuid_str (or_empty raw_metadata) (build_screening_card job)

  -- app/services/match/formatters.py
  abbrev pub format_profile : (Fields F → String) → ProfileRow F → String
  format_profile json_dumps profile = elim profile.structured_data [
    | none ↦ strip profile.resume_text
    | some structured ↦
        if fields_truthy structured then json_dumps structured else strip profile.resume_text
  ]

  unfoldable pub candidate_location : ProfileRow F → Option String
  unfolding strip
  candidate_location profile = blank_or_text (get "location" (or_empty profile.structured_data))

  -- a line with a label, if there is a text
  abbrev pub line_of : String → Option String → List String
  line_of label none = []
  line_of label (some s) = (label +++ s) ∷ []

  -- `if job.location: parts.append(...)`
  abbrev pub location_line : Option String → List String
  location_line location = if truthy location then ("Location: " +++ or_blank location) ∷ [] else []

  unfoldable pub job_head : JobRow F → List String
  unfolding strip
  job_head job =
      ("Title: " +++ job.title) ∷ ("Company: " +++ job.company) ∷ location_line job.location
      ++ line_of "Work arrangement: " (blank_or_text (get "work_mode" (or_empty job.raw_metadata)))

  unfoldable pub format_job : JobRow F → String
  unfolding job_head strip
  format_job job = join "\n" (job_head job ++ ("" ∷ "Description:" ∷ strip job.description ∷ []))

  unfoldable pub summary_lines : Fields F → List String
  unfolding strip
  summary_lines metadata = elim (blank_or_text (get "match_summary" metadata)) [
    | none ↦ []
    | some summary ↦ "" ∷ ("Role summary: " +++ summary) ∷ []
  ]

  unfoldable pub format_job_for_match : Bool → JobRow F → String
  unfolding format_job cleaned summary_lines
  format_job_for_match match_compact_job_prompt job =
      let metadata = or_empty job.raw_metadata in
      let requirements = cleaned_list (get "requirements" metadata) in
      if not match_compact_job_prompt || is_empty requirements
      then format_job job
      else join "\n" (
          job_head job
          ++ ("" ∷ "Requirements:" ∷ map (λ item. "- " +++ item) requirements)
          ++ summary_lines metadata)
