-- ===== src/JobMetadata/Tests.antt =====
-- Metadata of a job, with natural numbers in place of Python's.
use ai_career_os.Common.{ℕ, ◌-◌, ◌≡◌, refl, true, false, none, some, ◌==◌}
use ai_career_os.Common.Exec.{Exception, Result, ok, err}
use ai_career_os.Json.{Value, Fields, end, field, boolean, number, text, object, get, set}
use ai_career_os.JobMetadata.{
  Numbers, mark_application_step, is_application_step_done, mark_resume_applied,
  record_match_remeasurement, remeasure, remeasured, read_resume_progress, save_job_artifact,
  read_job_artifact,
}
use ai_career_os.JobMetadata.Progress.{
  is_application_step_done-mark, record_match_remeasurement-twice,
  record_match_remeasurement-applied,
}
use ai_career_os.JobMetadata.Artifacts.{read_job_artifact-save}

abbrev to_nat : Value ℕ → Result ℕ
to_nat (number n) = ok n
to_nat _ = err (Exception.value_error "could not convert")

abbrev pub naturals : Numbers ℕ
naturals = record {
  is_zero = λ n. n == 0;
  of_nat = λ n. n;
  round_1 = λ n. n;
  minus = λ a b. a - b;
  to_float = to_nat;
}

-- a cover letter was written before
abbrev started : Fields ℕ
started =
    field "application_progress"
      (object (field "cover_letter" (object (field "completed" (boolean true) end)) end)) end

cover_letter_done : is_application_step_done naturals (some started) "cover_letter" ≡ true
unfolding is_application_step_done get
cover_letter_done = refl

is_application_step_done-mark_example :
    (is_application_step_done naturals
        (some (mark_application_step "t0" (some started) "resume"))
        "resume"
      ≡ true)
    × (is_application_step_done naturals
          (some (mark_application_step "t0" (some started) "resume"))
          "cover_letter"
        ≡ is_application_step_done naturals (some started) "cover_letter")
is_application_step_done-mark_example =
    is_application_step_done-mark naturals "t0" (some started) "resume" "cover_letter" refl

abbrev untouched : Fields ℕ
untouched = field "note" (text "x") end

nothing_waits : record_match_remeasurement naturals "t3" (some untouched) "b" 75 1 ≡ ok untouched
unfolding record_match_remeasurement remeasure get
nothing_waits = refl

abbrev waiting : Fields ℕ
waiting =
    field "application_progress"
      (object (
        field "resume"
          (object (
            field "awaiting_reanalysis" (boolean true)
              (field "baseline_analysis_id" (text "a") (field "baseline_score" (number 60) end))))
          end))
      end

-- what a measurement of 75 with one gap makes of it
abbrev measured : Fields ℕ
measured =
    field "application_progress"
      (object (
        field "resume"
          (object (
            field "awaiting_reanalysis" (boolean false) (
              field "baseline_analysis_id" (text "a") (
                field "baseline_score" (number 60) (
                  field "remeasured_at" (text "t3") (
                    field "remeasured_analysis_id" (text "b") (
                      field "remeasured_score" (number 75) (
                        field "score_delta" (number 15)
                          (field "remeasured_gap_count" (number 1) end)))))))))
          end))
      end

measurement_is_written :
    record_match_remeasurement naturals "t3" (some waiting) "b" 75 1 ≡ ok measured
unfolding record_match_remeasurement remeasure remeasured get set
measurement_is_written = refl

record_match_remeasurement-twice_example :
    record_match_remeasurement naturals "t4" (some measured) "b" 80 0 ≡ ok measured
record_match_remeasurement-twice_example =
    record_match_remeasurement-twice naturals "t3" "t4" (some waiting) "b" 75 80 1 0 measured
      measurement_is_written

record_match_remeasurement-applied_example :
    let applied = mark_resume_applied naturals "t1" "t2" (some started) "a" 60 3 2 in
    (record_match_remeasurement naturals "t3" (some applied) "a" 75 1 ≡ ok applied)
    × ((saved : Fields ℕ) × (resume : Fields ℕ) × (record_match_remeasurement naturals "t3"
            (some applied)
            "b"
            75
            1
          ≡ ok saved)
        × (read_resume_progress (some saved) ≡ some resume)
        × (get "score_delta" resume ≡ some (number 15))
        × (get "awaiting_reanalysis" resume ≡ some (boolean false)))
record_match_remeasurement-applied_example =
    record_match_remeasurement-applied naturals "t1" "t2" "t3" (some started) "a" "b" 60 75 3 1 2
      (λ n. refl) refl

read_job_artifact-save_example :
    let saved = some (save_job_artifact "t" (some started) "cover_letter" "a" untouched) in
    (read_job_artifact saved "cover_letter" (some "a") ≡ some untouched)
    × (read_job_artifact saved "cover_letter" none ≡ some untouched)
    × (read_job_artifact saved "cover_letter" (some "b") ≡ none)
    × (read_job_artifact saved "resume_optimization" none
        ≡ read_job_artifact (some started) "resume_optimization" none)
read_job_artifact-save_example =
    read_job_artifact-save "t" (some started) "cover_letter" "a" untouched "resume_optimization" "b"
      none refl refl refl
