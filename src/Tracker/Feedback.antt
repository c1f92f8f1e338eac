-- ===== src/Tracker/Feedback.antt =====
-- Feedback on a match or a job: the handler of app/api/feedback.py, the checks of
-- `FeedbackEventCreate` in app/schemas/feedback.py, and app/services/jobs/application_status.py.
pub mod Recorded
use ai_career_os.Common.{
  ℕ, suc, ◌+◌, String, Bool, true, false, not, ◌&&◌, ◌||◌, Option, none, some, List, [], ◌∷◌, ◌++◌,
  any, ◌==◌, str_eq, if◌then◌else◌,
}
use Prim.Native.String.{◌++◌ as ◌+++◌}
use ai_career_os.Common.Text.{is_some}
use ai_career_os.Common.Exec.{Exception, Result, ok, err, Exec, ◌>>=◌, ◌>>◌, raise, pure, modify}
use ai_career_os.Json.{Value, Fields, text, get}
use ai_career_os.Tracker.Model.{
  ProfileRow, JobRow, AnalysisRow, FeedbackRow, Session, get_profile, get_job, get_analysis,
  put_job, change, commit,
}
use ai_career_os.Tracker.Results.{Validated, valid, invalid}
use ai_career_os.Tracker.AnalysisApi.{or_404, get_profile_or_404, bad_request}
use ai_career_os.Tracker.Memory.{
  FeedbackEventType, event_value, Texts, str_of, sync_career_memory_from_feedback,
}

pub record FeedbackEventCreate (F : Type 0) : Type 0 where
  pub profile_id : ℕ
  pub event_type : FeedbackEventType
  pub job_id : Option ℕ
  pub match_analysis_id : Option ℕ
  pub payload : Fields F

abbrev pub needs_job : FeedbackEventType → Bool
needs_job FeedbackEventType.preference = false
needs_job _ = true

abbrev pub needs_analysis : FeedbackEventType → Bool
needs_analysis FeedbackEventType.match_helpful = true
needs_analysis FeedbackEventType.gap_dispute = true
needs_analysis FeedbackEventType.strength_confirm = true
needs_analysis _ = false

module _ {F : Type 0} where
  -- the tests on the ids, after the payload was validated
  unfoldable pub validate_ids : FeedbackEventCreate F → Validated (FeedbackEventCreate F)
  validate_ids body =
      if needs_job body.event_type && not (is_some body.job_id)
      then invalid ("job_id is required for " +++ event_value body.event_type)
      else if needs_analysis body.event_type && not (is_some body.match_analysis_id)
      then invalid ("match_analysis_id is required for " +++ event_value body.event_type)
      else valid body

  -- `model_validate(payload).model_dump(mode="json")` of the model of a type is a parameter.
  abbrev pub with_payload :
      FeedbackEventCreate F → Validated (Fields F) → Validated (FeedbackEventCreate F)
  with_payload body (invalid m) = invalid m
  with_payload body (valid payload) = validate_ids (record body { payload = payload })

  unfoldable pub validate_payload_for_type :
      (FeedbackEventType → Fields F → Validated (Fields F))
      → FeedbackEventCreate F
      → Validated (FeedbackEventCreate F)
  unfolding validate_ids
  validate_payload_for_type validate_feedback_payload body =
      with_payload body (validate_feedback_payload body.event_type body.payload)

abbrev pub application_outcomes : List String
application_outcomes = "saved" ∷ "applied" ∷ "interviewing" ∷ "rejected" ∷ "offer" ∷ "passed" ∷ []

abbrev pub default_application_status : String
default_application_status = "saved"

module _ {F : Type 0} where
  -- `if body.job_id:`
  abbrev pub check_job : Option ℕ → Exec (Session F) (Unit {0})
  check_job none s = pure tt s
  check_job (some id) s = (or_404 "Job not found" (get_job id s) >> pure tt) s

  -- `body.job_id and analysis.job_id != body.job_id`
  abbrev pub is_of_other_job : Option ℕ → AnalysisRow F → Bool
  is_of_other_job none analysis = false
  is_of_other_job (some id) analysis = not (analysis.job_id == id)

  abbrev pub check_owner : FeedbackEventCreate F → AnalysisRow F → Exec (Session F) (Unit {0})
  check_owner body analysis s =
      if not (analysis.profile_id == body.profile_id)
      then bad_request "match_analysis_id does not belong to profile_id" s
      else if is_of_other_job body.job_id analysis
      then bad_request "match_analysis_id does not belong to job_id" s
      else (ok tt, s)

  -- `if body.match_analysis_id:`
  abbrev pub check_analysis : FeedbackEventCreate F → Option ℕ → Exec (Session F) (Unit {0})
  check_analysis body none s = pure tt s
  check_analysis body (some id) s =
      (or_404 "Match analysis not found" (get_analysis id s) >>= check_owner body) s

  unfoldable pub validate_feedback_references : FeedbackEventCreate F → Exec (Session F) (Unit {0})
  validate_feedback_references body = get_profile_or_404 body.profile_id >>= λ _.
      check_job body.job_id >>= λ _. check_analysis body body.match_analysis_id

  abbrev pub new_event : ℕ → FeedbackEventCreate F → FeedbackRow F
  new_event id body = record {
    id = id;
    profile_id = body.profile_id;
    job_id = body.job_id;
    match_analysis_id = body.match_analysis_id;
    event_type = event_value body.event_type;
    payload = body.payload;
  }

  -- `db.add(event)` and `db.flush()`
  unfoldable pub add_event : FeedbackRow F → Session F → Session F
  add_event event =
      change
        (λ rows. record rows { events = rows.events ++ (event ∷ []); next_id = rows.next_id + 1 })

module _ {F : Type 0} (py : Texts F) where
  -- `ApplicationOutcomeStatus(str(raw_status)).value`, and the status that its ValueError leads to
  abbrev pub outcome_status : Option (Value F) → String
  outcome_status none = default_application_status
  outcome_status (some raw_status) =
      if any (λ known. str_eq known (str_of py raw_status)) application_outcomes
      then str_of py raw_status
      else default_application_status

  abbrev pub put_status : FeedbackRow F → Option (JobRow F) → Session F → Session F
  put_status event none s = s
  put_status event (some job) s =
      put_job (record job { application_status = outcome_status (get "status" event.payload) }) s

  abbrev pub status_of_job : FeedbackRow F → Option ℕ → Session F → Session F
  status_of_job event none s = s
  status_of_job event (some id) s = put_status event (get_job id s) s

  unfoldable pub sync_job_application_status_from_feedback : FeedbackRow F → Session F → Session F
  sync_job_application_status_from_feedback event s =
      if not (str_eq event.event_type "application_outcome")
      then s
      else status_of_job event event.job_id s

  -- what follows the checks
  unfoldable pub record_event : FeedbackRow F → Exec (Session F) (FeedbackRow F)
  unfolding add_event sync_job_application_status_from_feedback sync_career_memory_from_feedback
  record_event event = modify (add_event event) >>= λ _.
      sync_career_memory_from_feedback py event >>= λ _ s.
      (ok event, commit (sync_job_application_status_from_feedback event s))

  unfoldable pub create_feedback : FeedbackEventCreate F → Exec (Session F) (FeedbackRow F)
  unfolding validate_feedback_references record_event
  create_feedback body =
      validate_feedback_references body >>= λ _ s. record_event (new_event s.rows.next_id body) s
