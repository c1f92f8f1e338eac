-- ===== src/JobMetadata.antt =====
-- What the program keeps in `Job.raw_metadata`: app/services/application_progress.py and
-- app/services/job_artifacts.py. A moment is the text of `datetime.isoformat()`, and is passed to
-- the functions that take it from the clock, once for each call of `_now_iso`.
pub mod Progress
pub mod Artifacts
mod Tests
use ai_career_os.Common.{
  ℕ, String, Bool, true, false, not, ◌||◌, Option, none, some, str_eq, if◌then◌else◌,
}
use ai_career_os.Common.Text.{truthy, or_blank}
use ai_career_os.Common.Exec.{Result, ok, err}
use ai_career_os.Json.{
  Value, Fields, end, field, boolean, number, text, object, null, get, set, update, or_empty,
  dict_or_empty, as_dict, is_true, found_true, is_text,
}

abbrev pub application_progress_key : String
application_progress_key = "application_progress"

abbrev pub step_resume : String
step_resume = "resume"

-- What the code asks of Python's numbers.
pub record Numbers (F : Type 0) : Type 0 where
  pub is_zero : F → Bool
  pub of_nat : ℕ → F
  -- `round(x, 1)`
  pub round_1 : F → F
  pub minus : F → F → F
  -- `float(value)`, which raises on a value that is no number
  pub to_float : Value F → Result F

module _ {F : Type 0} where
  -- `if not raw_metadata: return {}`
  abbrev pub section_dict : String → Option (Fields F) → Fields F
  section_dict key none = end
  section_dict key (some metadata) = dict_or_empty (get key metadata)

  abbrev pub progress_dict : Option (Fields F) → Fields F
  progress_dict = section_dict application_progress_key

  -- `{"completed": True, "completed_at": _now_iso()}`
  abbrev pub completed_entry : String → Fields F
  completed_entry now = field "completed" (boolean true) (field "completed_at" (text now) end)

  -- `{**existing, **entry}` if there is a dict
  abbrev pub over_existing : Option (Value F) → Fields F → Fields F
  over_existing (some (object existing)) entry = update existing entry
  over_existing _ entry = entry

  unfoldable pub mark_application_step : String → Option (Fields F) → String → Fields F
  unfolding update
  mark_application_step now raw_metadata step =
      let metadata = or_empty raw_metadata in
      let progress = progress_dict (some metadata) in
      let entry = over_existing (get step progress) (completed_entry now) in
      set application_progress_key (object (set step (object entry) progress)) metadata

  abbrev pub read_resume_progress : Option (Fields F) → Option (Fields F)
  read_resume_progress raw_metadata = as_dict (get step_resume (progress_dict raw_metadata))

module _ {F : Type 0} (num : Numbers F) where
  open num use {is_zero, of_nat, round_1, minus, to_float}

  -- the entry of `is_application_step_done`
  abbrev pub entry_done : Option (Value F) → Bool
  entry_done (some (object entry)) = found_true is_zero (get "completed" entry)
  entry_done entry = found_true is_zero entry

  unfoldable pub is_application_step_done : Option (Fields F) → String → Bool
  is_application_step_done raw_metadata step = entry_done (get step (progress_dict raw_metadata))

  abbrev pub resume_entry : String → String → String → F → ℕ → ℕ → Fields F
  resume_entry now later analysis_id score gap_count suggestions_count =
      field "completed" (boolean true) (
        field "completed_at" (text now) (
          field "baseline_analysis_id" (text analysis_id) (
            field "baseline_score" (number (round_1 score)) (
              field "baseline_gap_count" (number (of_nat gap_count)) (
                field "suggestions_applied_at" (text later) (
                  field "suggestions_count" (number (of_nat suggestions_count))
                    (field "awaiting_reanalysis" (boolean true) end)))))))

  unfoldable pub mark_resume_applied :
      String → String → Option (Fields F) → String → F → ℕ → ℕ → Fields F
  mark_resume_applied now later raw_metadata analysis_id score gap_count suggestions_count =
      let metadata = or_empty raw_metadata in
      let progress = progress_dict (some metadata) in
      let entry = resume_entry now later analysis_id score gap_count suggestions_count in
      set application_progress_key (object (set step_resume (object entry) progress)) metadata

  -- the assignments to `resume`, whose baseline is a number
  unfoldable pub remeasured : String → Fields F → String → F → F → ℕ → Fields F
  unfolding set
  remeasured now resume analysis_id score baseline gap_count =
      set "remeasured_gap_count" (number (of_nat gap_count)) (
        set "score_delta" (number (round_1 (minus score baseline))) (
          set "remeasured_score" (number (round_1 score)) (
            set "remeasured_analysis_id" (text analysis_id)
              (set "remeasured_at" (text now) (set "awaiting_reanalysis" (boolean false) resume)))))

  -- `baseline_score is None`
  abbrev pub is_none : Option (Value F) → Bool
  is_none none = true
  is_none (some null) = true
  is_none _ = false

  -- `float(baseline_score)` of a score that is not `None`
  abbrev pub baseline_float : Option (Value F) → Result F
  baseline_float none = to_float null
  baseline_float (some score) = to_float score

  abbrev pub with_resume : Fields F → Fields F → Result (Fields F) → Result (Fields F)
  with_resume metadata progress (err e) = err e
  with_resume metadata progress (ok resume) =
      ok (set application_progress_key (object (set step_resume (object resume) progress)) metadata)

  abbrev pub with_baseline : String → Fields F → String → F → ℕ → Result F → Result (Fields F)
  with_baseline now resume analysis_id score gap_count (err e) = err e
  with_baseline now resume analysis_id score gap_count (ok baseline) =
      ok (remeasured now resume analysis_id score baseline gap_count)

  -- what follows the look for a resume that waits
  unfoldable pub remeasure :
      String → Fields F → Fields F → String → F → ℕ → Option (Value F) → Result (Fields F)
  unfolding remeasured
  remeasure now metadata progress analysis_id score gap_count (some (object resume)) =
      if not (found_true is_zero (get "awaiting_reanalysis" resume))
      then ok metadata
      else if is_text analysis_id (get "baseline_analysis_id" resume)
          || is_none (get "baseline_score" resume)
      then ok metadata
      else with_resume metadata progress (
          with_baseline now resume analysis_id score gap_count
            (baseline_float (get "baseline_score" resume)))
  remeasure now metadata progress analysis_id score gap_count _ = ok metadata

  unfoldable pub record_match_remeasurement :
      String → Option (Fields F) → String → F → ℕ → Result (Fields F)
  unfolding remeasure
  record_match_remeasurement now raw_metadata analysis_id score gap_count =
      let metadata = or_empty raw_metadata in
      let progress = progress_dict (some metadata) in
      remeasure now metadata progress analysis_id score gap_count (get step_resume progress)

abbrev pub artifacts_key : String
artifacts_key = "artifacts"

module _ {F : Type 0} where
  abbrev pub artifacts_dict : Option (Fields F) → Fields F
  artifacts_dict = section_dict artifacts_key

  unfoldable pub save_job_artifact :
      String → Option (Fields F) → String → String → Fields F → Fields F
  save_job_artifact now raw_metadata artifact_type analysis_id result =
      let metadata = or_empty raw_metadata in
      let entry : Fields F =
        field "analysis_id" (text analysis_id)
          (field "result" (object result) (field "generated_at" (text now) end)) in
      set artifacts_key (object (set artifact_type (object entry) (artifacts_dict (some metadata))))
        metadata

  -- `analysis_id and entry.get("analysis_id") != analysis_id`
  abbrev pub is_of_another : Option String → Fields F → Bool
  is_of_another analysis_id entry =
      if truthy analysis_id
      then not (is_text (or_blank analysis_id) (get "analysis_id" entry))
      else false

  abbrev pub entry_result : Option String → Option (Value F) → Option (Fields F)
  entry_result analysis_id (some (object entry)) =
      if is_of_another analysis_id entry then none else as_dict (get "result" entry)
  entry_result analysis_id _ = none

  unfoldable pub read_job_artifact : Option (Fields F) → String → Option String → Option (Fields F)
  read_job_artifact raw_metadata artifact_type analysis_id =
      entry_result analysis_id (get artifact_type (artifacts_dict raw_metadata))
