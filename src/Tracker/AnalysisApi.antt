-- ===== src/Tracker/AnalysisApi.antt =====
-- The handlers of app/api/match_analyses.py, the look-ups of app/api/deps.py, and the two results
-- that a match leads to: app/schemas/cover_letter.py and app/schemas/resume_optimization.py. The
-- calls of the model, `generate_cover_letter` and `optimize_resume_for_match`, are parameters.
pub mod Letter
use ai_career_os.Common.{
  ℕ, suc, ◌+◌, String, Bool, true, false, not, ◌||◌, Option, none, some, List, [], ◌∷◌, ◌++◌,
  str_eq, if◌then◌else◌, is_empty,
}
use ai_career_os.Common.Text.{is_some}
use ai_career_os.Common.Exec.{Exception, message, Result, ok, err, Exec, ◌>>=◌, ◌>>◌, raise, pure}
use ai_career_os.Json.{
  Value, Items, Fields, null, nil, cons, end, field, text, array, object, get, is_text,
  fields_truthy,
}
use ai_career_os.JobMetadata.{mark_application_step, save_job_artifact, step_resume}
use ai_career_os.Radar.Model.{AnalysisStatus}
use ai_career_os.Tracker.Model.{
  ProfileRow, JobRow, AnalysisRow, Rows, Session, get_profile, get_job, get_analysis, put_job,
  commit, Indexed, commit_chunks,
}
use ai_career_os.Tracker.Results.{
  MatchResult, Validated, valid, invalid, array_of, match_result_from_analysis_payload,
  match_result_for_cover_letter,
}

abbrev pub step_cover_letter : String
step_cover_letter = "cover_letter"

abbrev pub artifact_resume_optimization : String
artifact_resume_optimization = "resume_optimization"

abbrev pub artifact_cover_letter : String
artifact_cover_letter = "cover_letter"

-- `section`, `action` and `tone` are texts that the schema has checked.
pub record CoverLetterResult : Type 0 where
  pub body : String
  pub tone : String
  pub highlights_used : List String
  pub critique_summary : String

pub record ResumeSuggestion : Type 0 where
  pub gap_evidence : String
  pub section : String
  pub action : String
  pub target_label : String
  pub current_text : Option String
  pub suggested_text : String
  pub rationale : String

pub record ResumeOptimizationResult : Type 0 where
  pub summary : String
  pub suggestions : List ResumeSuggestion

abbrev pub is_completed : AnalysisStatus → Bool
is_completed AnalysisStatus.completed = true
is_completed _ = false

module _ {F : Type 0} where
  abbrev pub text_or_null : Option String → Value F
  text_or_null none = null
  text_or_null (some s) = text s

  unfoldable pub letter_dump : CoverLetterResult → Fields F
  letter_dump letter = field "body" (text letter.body) (
      field "tone" (text letter.tone) (
        field "highlights_used" (array (array_of text letter.highlights_used))
          (field "critique_summary" (text letter.critique_summary) end)))

  abbrev pub suggestion_json : ResumeSuggestion → Value F
  suggestion_json s = object (
      field "gap_evidence" (text s.gap_evidence) (
        field "section" (text s.section) (
          field "action" (text s.action) (
            field "target_label" (text s.target_label) (
              field "current_text" (text_or_null s.current_text) (
                field "suggested_text" (text s.suggested_text)
                  (field "rationale" (text s.rationale) end)))))))

  unfoldable pub optimization_dump : ResumeOptimizationResult → Fields F
  optimization_dump result =
      field "summary" (text result.summary)
        (field "suggestions" (array (array_of suggestion_json result.suggestions)) end)

  -- the row, or a 404
  abbrev pub or_404 : {A : Type 0} → String → Option A → Exec (Session F) A
  or_404 detail none = raise (Exception.http_exception 404 detail)
  or_404 detail (some row) = pure row

  abbrev pub bad_request : {R : Type 0} → String → Exec (Session F) R
  bad_request detail = raise (Exception.http_exception 400 detail)

  abbrev pub get_profile_or_404 : ℕ → Exec (Session F) (ProfileRow F)
  get_profile_or_404 id s = or_404 "Profile not found" (get_profile id s) s

  abbrev pub get_job_or_404 : ℕ → Exec (Session F) (JobRow F)
  get_job_or_404 id s = or_404 "Job not found" (get_job id s) s

  abbrev pub get_match_analysis_or_404 : ℕ → Exec (Session F) (AnalysisRow F)
  get_match_analysis_or_404 id s = or_404 "Match analysis not found" (get_analysis id s) s

  abbrev pub new_analysis : ℕ → ℕ → ℕ → AnalysisRow F
  new_analysis id profile_id job_id = record {
    id = id;
    profile_id = profile_id;
    job_id = job_id;
    status = AnalysisStatus.pending;
    result = none;
    error = none;
  }

  -- `db.add(analysis)`, with a fresh id, and `db.flush()`
  unfoldable pub add_analysis : ℕ → ℕ → Session F → Session F
  add_analysis profile_id job_id s = record s {
    rows = record s.rows {
      analyses = s.rows.analyses ++ (new_analysis s.rows.next_id profile_id job_id ∷ []);
      next_id = s.rows.next_id + 1;
    };
  }

  -- `background_tasks.add_task(run_match_analysis, id)`
  abbrev pub enqueue : ℕ → Session F → Session F
  enqueue id s = record s { queued = s.queued ++ (id ∷ []) }

  unfoldable pub create_match_analysis : ℕ → ℕ → Exec (Session F) (AnalysisRow F)
  unfolding add_analysis
  create_match_analysis profile_id job_id = do
    get_profile_or_404 profile_id
    get_job_or_404 job_id
    λ s. (
      ok (new_analysis s.rows.next_id profile_id job_id),
      enqueue s.rows.next_id (commit (add_analysis profile_id job_id s)),
    )

-- A call of the model for a profile, a job and their match.
abbrev pub Generator : Type 0 → Type 0 → Type 0
Generator F R = ProfileRow F → JobRow F → MatchResult F → Indexed R

-- `now` and `later` are the times of the two changes of the metadata.
module _ {F : Type 0} (uuid_str : ℕ → String) (now later : String) where
  -- the two assignments to `job.raw_metadata`
  unfoldable pub with_artifact : String → String → ℕ → Fields F → JobRow F → JobRow F
  with_artifact step kind analysis_id result job = record job {
    raw_metadata = some (
        save_job_artifact later (some (mark_application_step now job.raw_metadata step)) kind
          (uuid_str analysis_id) result);
  }

  -- the end of both handlers: the answer of the model, its place in the metadata, the commit
  unfoldable pub keep_result :
      {R : Type 0}
      → String
      → String
      → (R → Fields F)
      → ℕ
      → JobRow F
      → Result (Unit {0})
      → Result R
      → Exec (Session F) R
  unfolding with_artifact
  keep_result step kind dump analysis_id job chunks (err e) s = (err e, s)
  keep_result step kind dump analysis_id job chunks (ok result) s =
      (commit_chunks chunks >> pure result)
        (put_job (with_artifact step kind analysis_id (dump result) job) s)

  module _ (validate : Fields F → Validated (MatchResult F)) where
    unfoldable pub letter_for :
        Generator F CoverLetterResult
        → AnalysisRow F
        → ProfileRow F
        → JobRow F
        → Result (MatchResult F)
        → Exec (Session F) CoverLetterResult
    unfolding keep_result
    letter_for generate analysis profile job (err e) =
        raise (Exception.http_exception 400 (message e))
    letter_for generate analysis profile job (ok match_result) =
        let run = generate profile job match_result in
        keep_result step_cover_letter artifact_cover_letter letter_dump analysis.id job run.chunks
          run.answer

    unfoldable pub letter_with :
        Generator F CoverLetterResult
        → AnalysisRow F
        → Fields F
        → Option (ProfileRow F)
        → Option (JobRow F)
        → Exec (Session F) CoverLetterResult
    unfolding letter_for
    letter_with generate analysis result (some profile) (some job) =
        letter_for generate analysis profile job (match_result_for_cover_letter validate result)
    letter_with generate analysis result _ _ =
        raise (Exception.http_exception 404 "Profile or job not found")

    unfoldable pub letter_of :
        Generator F CoverLetterResult
        → AnalysisRow F
        → Option (Fields F)
        → Exec (Session F) CoverLetterResult
    unfolding letter_with
    letter_of generate analysis none s =
        bad_request "Match analysis must be completed before generating a cover letter" s
    letter_of generate analysis (some result) s =
        if not (is_completed analysis.status) || not (fields_truthy result)
        then bad_request "Match analysis must be completed before generating a cover letter" s
        else letter_with generate analysis result (get_profile analysis.profile_id s)
            (get_job analysis.job_id s) s

    unfoldable pub create_cover_letter :
        Generator F CoverLetterResult → ℕ → Exec (Session F) CoverLetterResult
    unfolding letter_of
    create_cover_letter generate analysis_id = do
      analysis ← get_match_analysis_or_404 analysis_id
      letter_of generate analysis analysis.result

    unfoldable pub suggestions_for :
        Generator F ResumeOptimizationResult
        → AnalysisRow F
        → ProfileRow F
        → JobRow F
        → Validated (MatchResult F)
        → Exec (Session F) ResumeOptimizationResult
    unfolding keep_result
    suggestions_for optimize analysis profile job (invalid m) s =
        bad_request "Invalid match analysis result" s
    suggestions_for optimize analysis profile job (valid match_result) s =
        if is_empty match_result.gaps
        then bad_request "No gaps to optimize against" s
        else let run = optimize profile job match_result in
          keep_result step_resume artifact_resume_optimization optimization_dump analysis.id job
            run.chunks run.answer s

    unfoldable pub suggestions_with :
        Generator F ResumeOptimizationResult
        → AnalysisRow F
        → Fields F
        → Option (ProfileRow F)
        → Option (JobRow F)
        → Exec (Session F) ResumeOptimizationResult
    unfolding suggestions_for
    suggestions_with optimize analysis result (some profile) (some job) =
        suggestions_for optimize analysis profile job
          (match_result_from_analysis_payload validate result)
    suggestions_with optimize analysis result _ _ =
        raise (Exception.http_exception 404 "Profile or job not found")

    unfoldable pub suggestions_of :
        Generator F ResumeOptimizationResult
        → AnalysisRow F
        → Option (Fields F)
        → Exec (Session F) ResumeOptimizationResult
    unfolding suggestions_with
    suggestions_of optimize analysis none s =
        bad_request "Match analysis must be completed before generating resume suggestions" s
    suggestions_of optimize analysis (some result) s =
        if not (is_completed analysis.status) || not (fields_truthy result)
        then bad_request "Match analysis must be completed before generating resume suggestions" s
        else if is_text "screen" (get "depth" result)
        then bad_request "Full match analysis required for resume optimization" s
        else suggestions_with optimize analysis result (get_profile analysis.profile_id s)
            (get_job analysis.job_id s) s

    unfoldable pub create_resume_optimization :
        Generator F ResumeOptimizationResult → ℕ → Exec (Session F) ResumeOptimizationResult
    unfolding suggestions_of
    create_resume_optimization optimize analysis_id = do
      analysis ← get_match_analysis_or_404 analysis_id
      suggestions_of optimize analysis analysis.result
