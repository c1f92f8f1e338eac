-- ===== src/Tracker/Analysis.antt =====
-- The run of a match analysis in the background: app/services/match/orchestrator.py. The analyzer,
-- which asks the model and may index the chunks of the resume, and `str` of a UUID are parameters.
pub mod Settled
use ai_career_os.Common.{
  ℕ, String, Bool, true, false, Option, none, some, List, if◌then◌else◌, length,
}
use ai_career_os.Common.Exec.{Exception, message, Result, ok, err, Exec}
use ai_career_os.Json.{Fields}
use ai_career_os.JobMetadata.{Numbers, record_match_remeasurement}
use ai_career_os.Radar.Model.{AnalysisStatus}
use ai_career_os.Tracker.Model.{
  ProfileRow, JobRow, AnalysisRow, Session, get_profile, get_job, get_analysis, put_job,
  put_analysis, commit, Indexed, commit_chunks,
}
use ai_career_os.Tracker.Results.{MatchResult, ScoredChunk, full_result_payload}

abbrev pub is_pending : AnalysisStatus → Bool
is_pending AnalysisStatus.pending = true
is_pending _ = false

abbrev pub Analyzer : Type 0 → Type 0
Analyzer F = ProfileRow F → JobRow F → Indexed (MatchResult F × List (ScoredChunk F))

module _ {F : Type 0} where
  -- `analysis.status = "failed"` and its error
  abbrev pub as_failed : String → AnalysisRow F → AnalysisRow F
  as_failed error analysis = record analysis { status = AnalysisStatus.failed; error = some error }

  -- `analysis.status = "completed"`, its result, and no error
  abbrev pub as_completed : Fields F → AnalysisRow F → AnalysisRow F
  as_completed result analysis = record analysis {
    status = AnalysisStatus.completed;
    result = some result;
    error = none;
  }

module _ {F : Type 0} (num : Numbers F) (uuid_str : ℕ → String) (analyze_match : Analyzer F)
    (round_4 : F → F) (now : String) where
  -- the end of the `try`, and the handler of what it raises
  unfoldable pub remeasure_job :
      AnalysisRow F → JobRow F → Result (Fields F) → Session F → Session F
  remeasure_job analysis job (err e) s = put_analysis (as_failed (message e) analysis) s
  remeasure_job analysis job (ok raw_metadata) s =
      put_job (record job { raw_metadata = some raw_metadata }) (put_analysis analysis s)

  unfoldable pub finish_analysis :
      AnalysisRow F
      → JobRow F
      → Result (MatchResult F × List (ScoredChunk F))
      → Session F
      → Session F
  unfolding remeasure_job
  finish_analysis analysis job (err e) s = put_analysis (as_failed (message e) analysis) s
  finish_analysis analysis job (ok (result, rag_chunks)) s =
      remeasure_job (as_completed (full_result_payload round_4 result rag_chunks) analysis) job
        (record_match_remeasurement num now job.raw_metadata (uuid_str analysis.id) result.score
          (length result.gaps))
        s

  unfoldable pub run_with :
      AnalysisRow F → Option (ProfileRow F) → Option (JobRow F) → Exec (Session F) (Unit {0})
  unfolding finish_analysis
  run_with analysis (some profile) (some job) s =
      let run = analyze_match profile job in
      commit_chunks run.chunks (finish_analysis analysis job run.answer s)
  run_with analysis _ _ s =
      if is_pending analysis.status
      then (ok tt, commit (put_analysis (as_failed "Profile or job not found" analysis) s))
      else (ok tt, s)

  unfoldable pub run_found : Option (AnalysisRow F) → Exec (Session F) (Unit {0})
  unfolding run_with
  run_found none s = (ok tt, s)
  run_found (some analysis) s =
      run_with analysis (get_profile analysis.profile_id s) (get_job analysis.job_id s) s

  unfoldable pub run_match_analysis : ℕ → Exec (Session F) (Unit {0})
  unfolding run_found
  run_match_analysis analysis_id s = run_found (get_analysis analysis_id s) s
