-- ===== src/Tracker/Analysis/Settled.antt =====
-- What the run of an analysis leaves: app/services/match/orchestrator.py.
use ai_career_os.Common.{
  ℕ, String, ◌≡◌, refl, sym, ap, ◌∙◌, ◌⊎◌, inl, inr, true, false, Option, none, some, ◌==◌, List,
  length,
}
use ai_career_os.Common.Exec.{Exception, Result, ok, err}
use ai_career_os.Json.{Fields}
use ai_career_os.JobMetadata.{Numbers, record_match_remeasurement}
use ai_career_os.Radar.Model.{AnalysisStatus}
use ai_career_os.Tracker.Model.{
  ProfileRow, JobRow, AnalysisRow, Session, get_profile, get_job, get_analysis, put_analysis,
  commit, commit_chunks, find_row, put_row,
}
use ai_career_os.Tracker.Lookup.{find_row-put_same, find_row-put_other, find_row-key}
use ai_career_os.Tracker.Results.{MatchResult, ScoredChunk, full_result_payload}
use ai_career_os.Tracker.Analysis.{
  is_pending, Analyzer, as_failed, as_completed, remeasure_job, finish_analysis, run_with,
  run_found, run_match_analysis,
}

-- completed with a result and no error, or failed with one
abbrev pub IsSettled : (F : Type 0) → AnalysisRow F → Type 0
IsSettled F row =
    ((row.status ≡ AnalysisStatus.completed)
      × (row.error ≡ none)
      × ((payload : Fields F) × (row.result ≡ some payload)))
    ⊎ ((row.status ≡ AnalysisStatus.failed) × ((m : String) × (row.error ≡ some m)))

module _ {F : Type 0} where
  -- the analyses of a session that differs in one of them, which is settled
  record Settles (analysis : AnalysisRow F) (s s' : Session F) : Type 0 where
    pub row : AnalysisRow F
    pub settled : IsSettled F row
    pub same_id : row.id ≡ analysis.id
    pub analyses : s'.rows.analyses ≡ (put_analysis row s).rows.analyses

  committed :
      {analysis : AnalysisRow F} {s s' : Session F}
      → Settles analysis s s'
      → Settles analysis s (commit s')
  committed h = record {
    row = h.row;
    settled = h.settled;
    same_id = h.same_id;
    analyses = h.analyses;
  }

  failed_one :
      (m : String) (analysis : AnalysisRow F) (s : Session F)
      → Settles analysis s (put_analysis (as_failed m analysis) s)
  failed_one m analysis s = record {
    row = as_failed m analysis;
    settled = inr (refl, (m, refl));
    same_id = refl;
    analyses = refl;
  }

module _ {F : Type 0} (num : Numbers F) (uuid_str : ℕ → String) (analyze_match : Analyzer F)
    (round_4 : F → F) (now : String) where
  remeasure_job-Settles :
      (analysis : AnalysisRow F) (payload : Fields F) (job : JobRow F) (answer : Result (Fields F))
      (s : Session F)
      → Settles analysis s (
          remeasure_job num uuid_str analyze_match round_4 now
            (as_completed payload analysis)
            job
            answer
            s)
  unfolding remeasure_job
  remeasure_job-Settles analysis payload job (ok raw_metadata) s = record {
    row = as_completed payload analysis;
    settled = inl (refl, refl, (payload, refl));
    same_id = refl;
    analyses = refl;
  }
  remeasure_job-Settles analysis payload job (err e) s = record {
    row = as_failed _ (as_completed payload analysis);
    settled = inr (refl, (_, refl));
    same_id = refl;
    analyses = refl;
  }

  finish_analysis-Settles :
      (analysis : AnalysisRow F) (job : JobRow F)
      (answer : Result (MatchResult F × List (ScoredChunk F))) (s : Session F)
      → Settles analysis s
          (finish_analysis num uuid_str analyze_match round_4 now analysis job answer s)
  unfolding finish_analysis
  finish_analysis-Settles analysis job (ok (result, chunks)) s =
      remeasure_job-Settles analysis (full_result_payload round_4 result chunks) job
        (record_match_remeasurement num now job.raw_metadata (uuid_str analysis.id) result.score
          (length result.gaps))
        s
  finish_analysis-Settles analysis job (err e) s = failed_one _ analysis s

  -- the run returned, has saved all, and settled the analysis
  record Finished (analysis : AnalysisRow F) (s : Session F) (out : Result (Unit {0}) × Session F)
      : Type 0 where
    pub returned : out.0 ≡ ok tt
    pub change : Settles analysis s out.1
    pub all_saved : out.1.saved ≡ out.1.rows

  -- the chunks of the resume could not be written, so the commit raised and saved nothing
  abbrev pub Stuck :
      Option (ProfileRow F) → Option (JobRow F) → Session F → Result (Unit {0}) × Session F → Type 0
  Stuck profile job s out =
      (p : ProfileRow F) × (j : JobRow F) × (e : Exception) × (profile ≡ some p)
      × (job ≡ some j)
      × ((analyze_match p j).chunks ≡ err e)
      × (out.0 ≡ err e)
      × (out.1.saved ≡ s.saved)

  finish_analysis-saved :
      (analysis : AnalysisRow F) (job : JobRow F)
      (answer : Result (MatchResult F × List (ScoredChunk F))) (s : Session F)
      → (finish_analysis num uuid_str analyze_match round_4 now analysis job answer s).saved
        ≡ s.saved
  unfolding finish_analysis remeasure_job
  finish_analysis-saved analysis job (err e) s = refl
  finish_analysis-saved analysis job (ok (result, chunks)) s = remeasured (
      record_match_remeasurement num now job.raw_metadata (uuid_str analysis.id) result.score
        (length result.gaps))
    where
      remeasured :
          (answer : Result (Fields F))
          → (remeasure_job num uuid_str analyze_match round_4 now
              (as_completed (full_result_payload round_4 result chunks) analysis)
              job
              answer
              s).saved
            ≡ s.saved
      remeasured (ok raw_metadata) = refl
      remeasured (err e) = refl

  run_with-Finished :
      (analysis : AnalysisRow F) (profile : Option (ProfileRow F)) (job : Option (JobRow F))
      (s : Session F)
      → is_pending analysis.status ≡ true
      → Finished analysis s (run_with num uuid_str analyze_match round_4 now analysis profile job s)
        ⊎ Stuck profile job s
            (run_with num uuid_str analyze_match round_4 now analysis profile job s)
  unfolding run_with
  run_with-Finished analysis (some profile) (some job) s h =
      committed_chunks (analyze_match profile job).chunks refl
    where
      done : Session F
      done =
          finish_analysis num uuid_str analyze_match round_4 now analysis job
            (analyze_match profile job).answer s

      committed_chunks :
          (chunks : Result (Unit {0}))
          → (analyze_match profile job).chunks ≡ chunks
          → Finished analysis s (commit_chunks chunks done)
            ⊎ Stuck (some profile) (some job) s (commit_chunks chunks done)
      committed_chunks (ok u) e = inl (record {
        returned = refl;
        change =
            committed (finish_analysis-Settles analysis job (analyze_match profile job).answer s);
        all_saved = refl;
      })
      committed_chunks (err x) e = inr (
        profile,
        job,
        x,
        refl,
        refl,
        e,
        refl,
        finish_analysis-saved analysis job (analyze_match profile job).answer s,
      )
  run_with-Finished analysis (some profile) none s h = rw h (
      inl (record {
        returned = refl;
        change = committed (failed_one "Profile or job not found" analysis s);
        all_saved = refl;
      }))
  run_with-Finished analysis none job s h = rw h (
      inl (record {
        returned = refl;
        change = committed (failed_one "Profile or job not found" analysis s);
        all_saved = refl;
      }))

  Finished-IsSettled :
      (analysis_id other : ℕ) (analysis : AnalysisRow F) (s : Session F)
      (out : Result (Unit {0}) × Session F)
      → get_analysis analysis_id s ≡ some analysis
      → (analysis_id == other) ≡ false
      → Finished analysis s out
      → (out.0 ≡ ok tt)
        × (out.1.saved ≡ out.1.rows)
        × ((row : AnalysisRow F) × (get_analysis analysis_id out.1 ≡ some row) × IsSettled F row)
        × (get_analysis other out.1 ≡ get_analysis other s)
  Finished-IsSettled analysis_id other analysis s out found differs h = (
    h.returned,
    h.all_saved,
    (
      h.change.row,
      ap (find_row id_of analysis_id) h.change.analyses
          ∙ ap (λ i. find_row id_of i (put_row id_of h.change.row s.rows.analyses)) (sym at)
          ∙ find_row-put_same id_of h.change.row analysis s.rows.analyses
              (ap (λ i. find_row id_of i s.rows.analyses) at ∙ found),
      h.change.settled,
    ),
    ap (find_row id_of other) h.change.analyses
        ∙ find_row-put_other id_of other h.change.row s.rows.analyses
            (ap (λ i. i == other) at ∙ differs),
  )
    where
      id_of : AnalysisRow F → ℕ
      id_of row = row.id

      at : h.change.row.id ≡ analysis_id
      at = h.change.same_id ∙ find_row-key id_of analysis_id analysis s.rows.analyses found

  -- The run of an analysis that is pending returns, saves all and leaves any other analysis as it
  -- was, and the analysis is completed, with a result and no error, or failed, with an error; or its
  -- profile and job are there, the chunks of the resume that it indexed could not be written, and
  -- it raises what their commit raises and saves nothing.
  pub run_match_analysis-settles :
      (analysis_id other : ℕ) (analysis : AnalysisRow F) (s : Session F)
      → get_analysis analysis_id s ≡ some analysis
      → analysis.status ≡ AnalysisStatus.pending
      → (analysis_id == other) ≡ false
      → let out = run_match_analysis num uuid_str analyze_match round_4 now analysis_id s in
        ((out.0 ≡ ok tt)
          × (out.1.saved ≡ out.1.rows)
          × ((row : AnalysisRow F) × (get_analysis analysis_id out.1 ≡ some row) × IsSettled F row)
          × (get_analysis other out.1 ≡ get_analysis other s))
        ⊎ Stuck (get_profile analysis.profile_id s) (get_job analysis.job_id s) s out
  unfolding run_match_analysis run_found
  run_match_analysis-settles analysis_id other analysis s found pending differs =
      rw found
        (elim (run_with-Finished analysis (get_profile analysis.profile_id s)
          (get_job analysis.job_id s) s (ap is_pending pending)) [
            | inl finished ↦
                inl (Finished-IsSettled analysis_id other analysis s _ found differs finished)
            | inr stuck ↦ inr stuck
          ])
