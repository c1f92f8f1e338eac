-- ===== src/Tracker/Tests.antt =====
-- The handlers of the tracker on a small store.
use ai_career_os.Common.{
  ◌⊎◌, ℕ, String, ◌≡◌, refl, true, none, some, List, [], ◌∷◌, ◌+◌, ◌≤◌, arith,
}
use ai_career_os.Common.Text.{str_len, str_nat, strip}
use ai_career_os.Common.Exec.{Exception, ok, err, Post}
use ai_career_os.Json.{Value, end, field, text, get, or_empty}
use ai_career_os.JobMetadata.{is_application_step_done, read_job_artifact}
use ai_career_os.Tracker.Model.{Indexed, ProfileRow, JobRow, AnalysisRow, get_job, get_analysis}
use ai_career_os.Tracker.Results.{
  MatchResult, ScoredChunk, valid, match_result_from_analysis_payload,
  match_result_for_cover_letter, full_result_payload,
  match_result_for_cover_letter-full_result_payload,
}
use ai_career_os.Tracker.Analysis.{run_match_analysis}
use ai_career_os.Tracker.Analysis.Settled.{IsSettled, Stuck, run_match_analysis-settles}
use ai_career_os.Tracker.AnalysisApi.{
  CoverLetterResult, ResumeOptimizationResult, create_cover_letter, create_resume_optimization,
  letter_dump,
}
use ai_career_os.Tracker.AnalysisApi.Letter.{
  Unchanged, create_cover_letter-Unchanged, create_cover_letter-kept,
}
use ai_career_os.Tracker.Memory.{FeedbackEventType}
use ai_career_os.Tracker.Memory.Active.{one_active}
use ai_career_os.Tracker.Feedback.{FeedbackEventCreate, new_event, create_feedback}
use ai_career_os.Tracker.Feedback.Recorded.{
  StatusFor, given_status, create_feedback-one_active, create_feedback-status,
}
use ai_career_os.Tracker.Handoff.{
  JobIntakeHandoff, create_handoff, get_handoff, read_job_intake_handoff, handoff_ttl,
}
use ai_career_os.Tracker.Handoff.Refines.{Call, created, looked_up, run, spec_run, run-spec_run}
use ai_career_os.Tracker.Handoff.Live.{read_job_intake_handoff-create, get_handoff-live}
use ai_career_os.Tracker.Cards.{ScreeningCard, build_screening_card, blank_or_text}
use ai_career_os.Tracker.Cards.Bounds.{InBounds, build_screening_card-valid}
use ai_career_os.Tracker.JobsApi.{JobCreate, JobsEnv, create_job}
use ai_career_os.Tracker.JobsApi.Unique.{urls_apart, create_job-urls_apart}
use ai_career_os.Tracker.Samples.{
  naturals, texts, profile, job, match, same, read_match, waiting, finished, session, letter,
}

match_result_for_cover_letter-full_result_payload_example :
    (match_result_from_analysis_payload read_match (full_result_payload same match [])
      ≡ valid match)
    × (match_result_for_cover_letter read_match (full_result_payload same match []) ≡ ok match)
match_result_for_cover_letter-full_result_payload_example =
    match_result_for_cover_letter-full_result_payload read_match same match [] refl

-- the chunks of the resume are written
abbrev analyze : ProfileRow ℕ → JobRow ℕ → Indexed (MatchResult ℕ × List (ScoredChunk ℕ))
analyze p j = record { answer = ok (match, []); chunks = ok tt }

run_match_analysis-settles_example :
    let out = run_match_analysis naturals str_nat analyze same "t" 3 session in
    ((out.0 ≡ ok tt)
      × (out.1.saved ≡ out.1.rows)
      × ((row : AnalysisRow ℕ) × (get_analysis 3 out.1 ≡ some row) × IsSettled ℕ row)
      × (get_analysis 4 out.1 ≡ get_analysis 4 session))
    ⊎ Stuck naturals str_nat analyze same "t" (some profile) (some job) session out
run_match_analysis-settles_example =
    run_match_analysis-settles naturals str_nat analyze same "t" 3 4 waiting session refl refl refl

abbrev write : ProfileRow ℕ → JobRow ℕ → MatchResult ℕ → Indexed CoverLetterResult
write p j r = record { answer = ok letter; chunks = ok tt }

-- the model cannot be called once the chunks are indexed
abbrev down : ProfileRow ℕ → JobRow ℕ → MatchResult ℕ → Indexed ResumeOptimizationResult
down p j r = record { answer = err (Exception.llm_error "down"); chunks = ok tt }

create_cover_letter-Unchanged_example :
    Unchanged session (create_cover_letter str_nat "t" "u" read_match write 3 session)
    × Unchanged session (create_resume_optimization str_nat "t" "u" read_match down 3 session)
create_cover_letter-Unchanged_example =
    create_cover_letter-Unchanged str_nat "t" "u" read_match write down 3 session

create_cover_letter-kept_example :
    let run = create_cover_letter str_nat "t" "u" read_match write 4 session in
    (run.0 ≡ ok letter)
    × (run.1.saved ≡ run.1.rows)
    × ((kept : JobRow ℕ) × (get_job 2 run.1 ≡ some kept)
        × (is_application_step_done naturals kept.raw_metadata "cover_letter" ≡ true)
        × (read_job_artifact kept.raw_metadata "cover_letter" (some (str_nat 4))
            ≡ some (letter_dump letter)))
create_cover_letter-kept_example =
    create_cover_letter-kept str_nat "t" "u" read_match naturals same write finished profile job
      match [] letter session refl refl refl refl refl refl refl

abbrev outcome : FeedbackEventCreate ℕ
outcome = record {
  profile_id = 1;
  event_type = FeedbackEventType.application_outcome;
  job_id = some 2;
  match_analysis_id = none;
  payload = field "status" (text "offer") end;
}

create_feedback-one_active_example :
    Post
      (λ event s'. (s'.saved ≡ s'.rows) × (one_active s'.rows.memories ≡ true))
      (λ s'. s' ≡ session)
      (create_feedback texts outcome session)
create_feedback-one_active_example = create_feedback-one_active texts outcome session refl

create_feedback-status_example :
    let run = create_feedback texts outcome session in
    (run.0 ≡ ok (new_event 6 outcome))
    × (run.1.saved ≡ run.1.rows)
    × ((row : JobRow ℕ) × (get_job 2 run.1 ≡ some row)
        × StatusFor (given_status texts (get "status" outcome.payload)) row.application_status)
create_feedback-status_example =
    create_feedback-status texts outcome profile job session refl refl refl refl refl

abbrev handoff : JobIntakeHandoff
handoff = record {
  id = 7;
  job_text = "Engineer at Acme";
  structured_data = record { title = "Engineer"; company = "Acme"; location = none; metadata = [] };
  url = none;
  source = none;
  created_at = 1000;
}

read_job_intake_handoff-create_example :
    (read_job_intake_handoff 1800000000 1800000001 7 (create_handoff 999 handoff []).1).0
    ≡ ok handoff
read_job_intake_handoff-create_example =
    read_job_intake_handoff-create 999 1800000000 1800000001 handoff [] (omega arith) (omega arith)

handoff_found : (get_handoff 2000 2001 7 (handoff ∷ [])).0 ≡ some handoff
unfolding get_handoff
handoff_found = refl

get_handoff-live_example : (handoff.id ≡ 7) × (2001 ≤ handoff.created_at + handoff_ttl)
get_handoff-live_example = get_handoff-live 2000 2001 7 (handoff ∷ []) handoff handoff_found

-- it is found two thousand microseconds later, and not after half an hour
abbrev calls : List Call
calls = created 999 handoff ∷ looked_up 2000 2001 7 ∷ looked_up 1900000000 1900000001 7 ∷ []

run-spec_run_example : run calls [] ≡ spec_run calls (λ id. none)
run-spec_run_example =
    run-spec_run 0 calls (omega arith, (omega arith, omega arith, (omega arith, omega arith, tt)))

abbrev no_text : Value ℕ → String
no_text v = "?"

description_is_full : 1 ≤ str_len (strip job.description)
unfolding str_len strip
description_is_full = omega arith

no_summary : blank_or_text no_text (get "match_summary" (or_empty job.raw_metadata)) ≡ none
unfolding get
no_summary = refl

build_screening_card-valid_example :
    (card : ScreeningCard) × (build_screening_card no_text job ≡ valid card)
    × (card.job_id ≡ 2)
    × InBounds no_text card
build_screening_card-valid_example =
    build_screening_card-valid no_text job no_summary description_is_full

abbrev jobs_env : JobsEnv ℕ
jobs_env = record { normalize_job_url = λ url. url; uuid_str = str_nat; str_other = no_text }

abbrev body : JobCreate ℕ
body = record {
  title = "Designer";
  company = "Acme";
  description = "Draws engines";
  location = none;
  url = some "https://acme.test/3";
  source = none;
  raw_metadata = none;
  profile_id = some 1;
}

create_job-urls_apart_example :
    Post
      (λ _ s'. (s'.saved ≡ s'.rows) × (urls_apart s'.rows.jobs ≡ true))
      (λ s'. s'.saved ≡ session.saved)
      (create_job jobs_env body session)
create_job-urls_apart_example = create_job-urls_apart jobs_env body session refl refl
