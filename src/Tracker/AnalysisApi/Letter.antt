-- ===== src/Tracker/AnalysisApi/Letter.antt =====
-- What the handlers of app/api/match_analyses.py leave in the session.
use ai_career_os.Common.{
  ℕ, String, ◌≡◌, refl, sym, ap, subst, ◌∙◌, true, false, not, ◌||◌, Option, none, some, List, [],
  ◌∷◌, Bool-cases, inl, inr, if_false, is_empty,
}
use ai_career_os.Common.Exec.{Result, ok, err, Post, ◌>>=◌}
use ai_career_os.Json.{Fields, set, update, get, is_text, fields_truthy}
use ai_career_os.JobMetadata.{
  Numbers, is_application_step_done, read_job_artifact, mark_application_step,
}
use ai_career_os.JobMetadata.Progress.{is_application_step_done-save, is_application_step_done-own}
use ai_career_os.JobMetadata.Artifacts.{read_job_artifact-own}
use ai_career_os.Tracker.Lookup.{find_row-put_same, find_row-key}
use ai_career_os.Radar.Model.{AnalysisStatus}
use ai_career_os.Tracker.Model.{
  ProfileRow, JobRow, AnalysisRow, Session, get_profile, get_job, get_analysis, put_job, commit,
  Indexed, find_row, put_row,
}
use ai_career_os.Tracker.Results.{
  MatchResult, Validated, valid, invalid, match_result_from_analysis_payload,
  match_result_for_cover_letter, match_result_for_cover_letter-full_result_payload, ScoredChunk,
  full_result_payload, model_dump,
}
use ai_career_os.Tracker.AnalysisApi.{
  CoverLetterResult, ResumeOptimizationResult, is_completed, Generator, keep_result, letter_for,
  letter_with, letter_of, create_cover_letter, suggestions_for, suggestions_with, suggestions_of,
  create_resume_optimization, letter_dump, optimization_dump, with_artifact, or_404,
}

-- Where something is raised, nothing is saved and nothing is queued.
abbrev pub Unchanged : {F R : Type 0} → Session F → Result R × Session F → Type 0
Unchanged s = Post (λ _ _. Unit) (λ s'. (s'.saved ≡ s.saved) × (s'.queued ≡ s.queued))

full_truthy :
    {F : Type 0} (round_4 : F → F) (r : MatchResult F) (chunks : List (ScoredChunk F))
    → fields_truthy (full_result_payload round_4 r chunks) ≡ true
unfolding full_result_payload model_dump update set
full_truthy round_4 r [] = refl
full_truthy round_4 r (c ∷ cs) = refl

module _ {F : Type 0} (uuid_str : ℕ → String) (now later : String)
    (validate : Fields F → Validated (MatchResult F)) where
  keep_result-Unchanged :
      {R : Type 0} (step kind : String) (dump : R → Fields F) (id : ℕ) (job : JobRow F)
      (chunks : Result (Unit {0})) (answer : Result R) (s : Session F)
      → Unchanged s (keep_result uuid_str now later step kind dump id job chunks answer s)
  unfolding keep_result
  keep_result-Unchanged step kind dump id job (ok u) (ok result) s = tt
  keep_result-Unchanged step kind dump id job (err e) (ok result) s = (refl, refl)
  keep_result-Unchanged step kind dump id job chunks (err e) s = (refl, refl)

  letter_with-Unchanged :
      (generate : Generator F CoverLetterResult) (analysis : AnalysisRow F) (result : Fields F)
      (profile : Option (ProfileRow F)) (job : Option (JobRow F)) (s : Session F)
      → Unchanged s (letter_with uuid_str now later validate generate analysis result profile job s)
  unfolding letter_with letter_for
  letter_with-Unchanged generate analysis result none job s = (refl, refl)
  letter_with-Unchanged generate analysis result (some profile) none s = (refl, refl)
  letter_with-Unchanged generate analysis result (some profile) (some job) s =
      for_match (match_result_for_cover_letter validate result)
    where
      for_match :
          (m : Result (MatchResult F))
          → Unchanged s (letter_for uuid_str now later validate generate analysis profile job m s)
      for_match (err e) = (refl, refl)
      for_match (ok r) =
          keep_result-Unchanged "cover_letter" "cover_letter" letter_dump analysis.id job
            (generate profile job r).chunks (generate profile job r).answer s

  letter_of-Unchanged :
      (generate : Generator F CoverLetterResult) (analysis : AnalysisRow F)
      (result : Option (Fields F)) (s : Session F)
      → Unchanged s (letter_of uuid_str now later validate generate analysis result s)
  unfolding letter_of
  letter_of-Unchanged generate analysis none s = (refl, refl)
  letter_of-Unchanged generate analysis (some result) s =
      elim (Bool-cases (not (is_completed analysis.status) || not (fields_truthy result))) [
        | inl refused ↦ rw refused (refl, refl)
        | inr done ↦ rw done (
            letter_with-Unchanged generate analysis result (get_profile analysis.profile_id s)
              (get_job analysis.job_id s) s)
      ]

  suggestions_with-Unchanged :
      (optimize : Generator F ResumeOptimizationResult) (analysis : AnalysisRow F)
      (result : Fields F) (profile : Option (ProfileRow F)) (job : Option (JobRow F))
      (s : Session F)
      → Unchanged s
          (suggestions_with uuid_str now later validate optimize analysis result profile job s)
  unfolding suggestions_with suggestions_for
  suggestions_with-Unchanged optimize analysis result none job s = (refl, refl)
  suggestions_with-Unchanged optimize analysis result (some profile) none s = (refl, refl)
  suggestions_with-Unchanged optimize analysis result (some profile) (some job) s =
      for_match (match_result_from_analysis_payload validate result)
    where
      for_match :
          (m : Validated (MatchResult F))
          → Unchanged s
              (suggestions_for uuid_str now later validate optimize analysis profile job m s)
      for_match (invalid m) = (refl, refl)
      for_match (valid r) = elim (Bool-cases (is_empty r.gaps)) [
        | inl none_left ↦ rw none_left (refl, refl)
        | inr gaps ↦ rw gaps (
            keep_result-Unchanged "resume" "resume_optimization" optimization_dump analysis.id job
              (optimize profile job r).chunks (optimize profile job r).answer s)
      ]

  suggestions_of-Unchanged :
      (optimize : Generator F ResumeOptimizationResult) (analysis : AnalysisRow F)
      (result : Option (Fields F)) (s : Session F)
      → Unchanged s (suggestions_of uuid_str now later validate optimize analysis result s)
  unfolding suggestions_of
  suggestions_of-Unchanged optimize analysis none s = (refl, refl)
  suggestions_of-Unchanged optimize analysis (some result) s =
      elim (Bool-cases (not (is_completed analysis.status) || not (fields_truthy result))) [
        | inl refused ↦ rw refused (refl, refl)
        | inr done ↦ elim (Bool-cases (is_text "screen" (get "depth" result))) [
          | inl screen ↦ rw (done, screen) (refl, refl)
          | inr full ↦
              rw (done, full)
                (suggestions_with-Unchanged optimize analysis result
                  (get_profile analysis.profile_id s) (get_job analysis.job_id s) s)
        ]
      ]

  -- Where a cover letter or resume suggestions are refused or fail, for any reason, the commit of
  -- the result included, nothing is saved and no analysis is queued.
  pub create_cover_letter-Unchanged :
      (generate : Generator F CoverLetterResult) (optimize : Generator F ResumeOptimizationResult)
      (analysis_id : ℕ) (s : Session F)
      → Unchanged s (create_cover_letter uuid_str now later validate generate analysis_id s)
        × Unchanged s
            (create_resume_optimization uuid_str now later validate optimize analysis_id s)
  unfolding create_cover_letter create_resume_optimization
  create_cover_letter-Unchanged generate optimize analysis_id s =
      (letters (get_analysis analysis_id s), suggestions (get_analysis analysis_id s))
    where
      letters :
          (entry : Option (AnalysisRow F))
          → Unchanged s (
              (or_404 "Match analysis not found" entry >>= λ a.
              letter_of uuid_str now later validate generate a a.result)
                s)
      letters none = (refl, refl)
      letters (some analysis) = letter_of-Unchanged generate analysis analysis.result s

      suggestions :
          (entry : Option (AnalysisRow F))
          → Unchanged s (
              (or_404 "Match analysis not found" entry >>= λ a.
              suggestions_of uuid_str now later validate optimize a a.result)
                s)
      suggestions none = (refl, refl)
      suggestions (some analysis) = suggestions_of-Unchanged optimize analysis analysis.result s

  -- A cover letter for a full analysis that is completed, whose profile and job are there: the
  -- letter of the model is returned, all is saved, the step of the job is done, and the letter is
  -- read back from the job for that analysis. `model_validate` gives a result back from its dump,
  -- and the commit writes the chunks of the resume, if any were indexed.
  pub create_cover_letter-kept :
      (num : Numbers F) (round_4 : F → F) (generate : Generator F CoverLetterResult)
      (analysis : AnalysisRow F) (profile : ProfileRow F) (job : JobRow F) (r : MatchResult F)
      (chunks : List (ScoredChunk F)) (letter : CoverLetterResult) (s : Session F)
      → validate (model_dump r) ≡ valid r
      → get_analysis analysis.id s ≡ some analysis
      → analysis.status ≡ AnalysisStatus.completed
      → analysis.result ≡ some (full_result_payload round_4 r chunks)
      → get_profile analysis.profile_id s ≡ some profile
      → get_job analysis.job_id s ≡ some job
      → generate profile job r ≡ record { answer = ok letter; chunks = ok tt }
      → let run = create_cover_letter uuid_str now later validate generate analysis.id s in
        (run.0 ≡ ok letter)
        × (run.1.saved ≡ run.1.rows)
        × ((kept : JobRow F) × (get_job analysis.job_id run.1 ≡ some kept)
            × (is_application_step_done num kept.raw_metadata "cover_letter" ≡ true)
            × (read_job_artifact kept.raw_metadata "cover_letter" (some (uuid_str analysis.id))
                ≡ some (letter_dump letter)))
  unfolding create_cover_letter letter_of letter_with letter_for keep_result with_artifact
  create_cover_letter-kept num round_4 generate analysis profile job r chunks letter s law found
        done stored with_profile with_job answer =
      (
        ap (λ (out : Out). out.0) runs,
        subst (λ (out : Out). out.1.saved ≡ out.1.rows) (sym runs) refl,
        (
          kept,
          ap (λ (out : Out). get_job analysis.job_id out.1) runs
              ∙ ap (λ i. find_row id_of i (put_row id_of kept s.rows.jobs)) (sym at)
              ∙ find_row-put_same id_of kept job s.rows.jobs
                  (ap (λ i. find_row id_of i s.rows.jobs) at ∙ with_job),
          is_application_step_done-save num later marked "cover_letter" (uuid_str analysis.id)
                (letter_dump letter) "cover_letter"
              ∙ is_application_step_done-own num now job.raw_metadata "cover_letter",
          read_job_artifact-own later (some marked) "cover_letter" (uuid_str analysis.id)
              (letter_dump letter),
        ),
      )
    where
      Out : Type 0
      Out = Result CoverLetterResult × Session F

      id_of : JobRow F → ℕ
      id_of row = row.id

      at : job.id ≡ analysis.job_id
      at = find_row-key id_of analysis.job_id job s.rows.jobs with_job

      marked : Fields F
      marked = mark_application_step now job.raw_metadata "cover_letter"

      kept : JobRow F
      kept =
          with_artifact uuid_str now later "cover_letter" "cover_letter" analysis.id
            (letter_dump letter) job

      ready :
          (not (is_completed analysis.status)
            || not (fields_truthy (full_result_payload round_4 r chunks)))
          ≡ false
      ready =
          ap
            (λ st.
              not (is_completed st) || not (fields_truthy (full_result_payload round_4 r chunks)))
            done
          ∙ ap not (full_truthy round_4 r chunks)

      runs :
          create_cover_letter uuid_str now later validate generate analysis.id s
          ≡ (ok letter, commit (put_job kept s))
      runs =
          ap
            (λ (o : Option (AnalysisRow F)).
              (or_404 "Match analysis not found" o >>= λ a.
              letter_of uuid_str now later validate generate a a.result)
                s)
            found
          ∙ ap
              (λ (o : Option (Fields F)).
                letter_of uuid_str now later validate generate analysis o s)
              stored
          ∙ if_false _ _ ready
          ∙ ap
              (λ (o : Option (ProfileRow F)).
                letter_with uuid_str now later validate generate analysis
                  (full_result_payload round_4 r chunks) o (get_job analysis.job_id s) s)
              with_profile
          ∙ ap
              (λ (o : Option (JobRow F)).
                letter_with uuid_str now later validate generate analysis
                  (full_result_payload round_4 r chunks) (some profile) o s)
              with_job
          ∙ ap
              (λ (m : Result (MatchResult F)).
                letter_for uuid_str now later validate generate analysis profile job m s)
              (match_result_for_cover_letter-full_result_payload validate round_4 r chunks law).1
          ∙ ap
              (λ (run : Indexed CoverLetterResult).
                keep_result uuid_str now later "cover_letter" "cover_letter" letter_dump analysis.id
                  job run.chunks run.answer s)
              answer
