-- ===== src/Tracker/Feedback/Recorded.antt =====
-- What the handler of app/api/feedback.py leaves in the session.
use ai_career_os.Common.{
  ℕ, String, ◌≡◌, refl, sym, ap, subst, ◌∙◌, true, not, Option, none, some, ◌==◌, str_eq,
  Bool-cases, inl, inr, if_true, if_false, Bool, false, any, [], ◌∷◌,
}
use ai_career_os.Common.Exec.{Result, ok, Exec, Post, Post->>=, ◌>>=◌, >>=-ok, ◌>>◌, pure}
use ai_career_os.Json.{Value, get}
use ai_career_os.Tracker.Model.{
  ProfileRow, JobRow, AnalysisRow, FeedbackRow, Session, get_profile, get_job, get_analysis,
  find_row, commit, put_job,
}
use ai_career_os.Tracker.Lookup.{find_row-put_same}
use ai_career_os.Tracker.AnalysisApi.{or_404, get_profile_or_404}
use ai_career_os.Tracker.Memory.{
  FeedbackEventType, MemoryDraft, event_value, event_type_of, Texts, str_of, draft_of,
  draft_memory_from_feedback, store_draft, draft_for, sync_draft, sync_career_memory_from_feedback,
}
use ai_career_os.Tracker.Memory.Active.{one_active, store_draft-one_active, draft_of-HasKey}
use ai_career_os.Tracker.Feedback.{
  FeedbackEventCreate, check_job, is_of_other_job, check_owner, check_analysis,
  validate_feedback_references, new_event, add_event, outcome_status, put_status, status_of_job,
  sync_job_application_status_from_feedback, record_event, create_feedback,
}

-- one of the statuses of an application
abbrev pub is_outcome : String → Bool
is_outcome text =
    any (λ name. str_eq name text)
      ("saved" ∷ "applied" ∷ "interviewing" ∷ "rejected" ∷ "offer" ∷ "passed" ∷ [])

-- The status of a job for the text of the status in a payload, if there is one.
pub data StatusFor : Option String → String → Type 0 where
  no_status : StatusFor none "saved"
  one_of_six : (text : String) → is_outcome text ≡ true → StatusFor (some text) text
  none_of_six : (text : String) → is_outcome text ≡ false → StatusFor (some text) "saved"

module _ {F : Type 0} where
  -- a check changes nothing, whether it passes or raises
  abbrev OnlyChecks : {R : Type 0} → Session F → Result R × Session F → Type 0
  OnlyChecks s = Post (λ _ s'. s' ≡ s) (λ s'. s' ≡ s)

  or_404-OnlyChecks :
      {A : Type 0} (detail : String) (found : Option A) (s : Session F)
      → OnlyChecks s (or_404 detail found s)
  or_404-OnlyChecks detail none s = refl
  or_404-OnlyChecks detail (some a) s = refl

  check_job-OnlyChecks : (id : Option ℕ) (s : Session F) → OnlyChecks s (check_job id s)
  check_job-OnlyChecks none s = refl
  check_job-OnlyChecks (some id) s = checked (get_job id s)
    where
      checked :
          (found : Option (JobRow F)) → OnlyChecks s ((or_404 "Job not found" found >> pure tt) s)
      checked none = refl
      checked (some job) = refl

  check_analysis-OnlyChecks :
      (body : FeedbackEventCreate F) (id : Option ℕ) (s : Session F)
      → OnlyChecks s (check_analysis body id s)
  check_analysis-OnlyChecks body none s = refl
  check_analysis-OnlyChecks body (some id) s = checked (get_analysis id s)
    where
      checked :
          (found : Option (AnalysisRow F))
          → OnlyChecks s ((or_404 "Match analysis not found" found >>= check_owner body) s)
      checked none = refl
      checked (some analysis) = elim (Bool-cases (not (analysis.profile_id == body.profile_id))) [
        | inl foreign ↦ rw foreign refl
        | inr own ↦ elim (Bool-cases (is_of_other_job body.job_id analysis)) [
          | inl other ↦ rw (own, other) refl
          | inr same ↦ rw (own, same) refl
        ]
      ]

  -- checks one after the other
  then_OnlyChecks :
      (m : Exec (Session F) (Unit {0})) (f : Exec (Session F) (Unit {0})) (s : Session F)
      → OnlyChecks s (m s)
      → OnlyChecks s (f s)
      → OnlyChecks s ((m >>= λ _. f) s)
  then_OnlyChecks m f s h k =
      Post->>= (λ _ s'. s' ≡ s) (λ _ s'. s' ≡ s) (λ s'. s' ≡ s) m (λ _. f) s h
        (λ _ s' e. subst (λ t. OnlyChecks s (f t)) (sym e) k)

  validate_feedback_references-OnlyChecks :
      (body : FeedbackEventCreate F) (s : Session F)
      → OnlyChecks s (validate_feedback_references body s)
  unfolding validate_feedback_references
  validate_feedback_references-OnlyChecks body s =
      Post->>= (λ _ s'. s' ≡ s) (λ _ s'. s' ≡ s) (λ s'. s' ≡ s) (get_profile_or_404 body.profile_id)
        (λ _. check_job body.job_id >>= λ _. check_analysis body body.match_analysis_id) s
        (or_404-OnlyChecks "Profile not found" (get_profile body.profile_id s) s)
        (λ _ s' e.
          subst
            (λ t.
              OnlyChecks s
                ((check_job body.job_id >>= λ _. check_analysis body body.match_analysis_id) t))
            (sym e)
            (then_OnlyChecks (check_job body.job_id) (check_analysis body body.match_analysis_id) s
              (check_job-OnlyChecks body.job_id s)
              (check_analysis-OnlyChecks body body.match_analysis_id s)))

event_type_of-value : (kind : FeedbackEventType) → event_type_of (event_value kind) ≡ some kind
event_type_of-value FeedbackEventType.match_helpful = refl
event_type_of-value FeedbackEventType.gap_dispute = refl
event_type_of-value FeedbackEventType.strength_confirm = refl
event_type_of-value FeedbackEventType.preference = refl
event_type_of-value FeedbackEventType.application_outcome = refl

module _ {F : Type 0} (py : Texts F) where
  -- the session after an event whose type is known was recorded
  abbrev recorded : FeedbackRow F → FeedbackEventType → Session F → Session F
  recorded event kind s = commit (
      sync_job_application_status_from_feedback py event
        (store_draft py event (draft_of py kind event) (add_event event s)))

  record_event-recorded :
      (event : FeedbackRow F) (kind : FeedbackEventType) (s : Session F)
      → event_type_of event.event_type ≡ some kind
      → record_event py event s ≡ (ok event, recorded event kind s)
  unfolding record_event sync_career_memory_from_feedback draft_memory_from_feedback
  record_event-recorded event kind s known =
      ap
        (λ (k : Option FeedbackEventType).
          (sync_draft py event (draft_for py event k) >>= λ _ t.
          (ok event, commit (sync_job_application_status_from_feedback py event t)))
            (add_event event s))
        known

  status-memories :
      (event : FeedbackRow F) (s : Session F)
      → (sync_job_application_status_from_feedback py event s).rows.memories ≡ s.rows.memories
  unfolding sync_job_application_status_from_feedback
  status-memories event s =
      elim (Bool-cases (not (str_eq event.event_type "application_outcome"))) [
        | inl other ↦ rw other refl
        | inr outcome ↦ rw outcome (of_job event.job_id)
      ]
    where
      put : (job : Option (JobRow F)) → (put_status py event job s).rows.memories ≡ s.rows.memories
      put none = refl
      put (some job) = refl

      of_job : (id : Option ℕ) → (status_of_job py event id s).rows.memories ≡ s.rows.memories
      of_job none = refl
      of_job (some id) = put (get_job id s)

  -- Feedback that is refused changes nothing. Feedback that is recorded is saved with all that
  -- follows from it, and keeps at most one active memory for each profile and key.
  pub create_feedback-one_active :
      (body : FeedbackEventCreate F) (s : Session F)
      → one_active s.rows.memories ≡ true
      → Post
          (λ event s'. (s'.saved ≡ s'.rows) × (one_active s'.rows.memories ≡ true))
          (λ s'. s' ≡ s)
          (create_feedback py body s)
  unfolding create_feedback
  create_feedback-one_active body s fresh =
      Post->>= (λ _ s'. s' ≡ s)
        (λ event s'. (s'.saved ≡ s'.rows) × (one_active s'.rows.memories ≡ true)) (λ s'. s' ≡ s)
        (validate_feedback_references body)
        (λ _ t. record_event py (new_event t.rows.next_id body) t) s
        (validate_feedback_references-OnlyChecks body s)
        (λ _ s' e.
          subst (λ t. Kept (record_event py (new_event t.rows.next_id body) t)) (sym e) kept)
    where
      Kept : Result (FeedbackRow F) × Session F → Type 0
      Kept =
          Post (λ event s'. (s'.saved ≡ s'.rows) × (one_active s'.rows.memories ≡ true))
            (λ s'. s' ≡ s)

      event : FeedbackRow F
      event = new_event s.rows.next_id body

      kept : Kept (record_event py event s)
      kept =
          subst Kept
            (sym
              (record_event-recorded event body.event_type s (event_type_of-value body.event_type)))
            (
              refl,
              ap one_active (status-memories event _)
                  ∙ store_draft-one_active py event (draft_of py body.event_type event)
                      (add_event event s) (draft_of-HasKey py body.event_type event) fresh,
            )

  store_draft-jobs :
      (event : FeedbackRow F) (draft : Option MemoryDraft) (s : Session F)
      → (store_draft py event draft s).rows.jobs ≡ s.rows.jobs
  unfolding store_draft
  store_draft-jobs event none s = refl
  store_draft-jobs event (some draft) s = refl

  abbrev pub given_status : Option (Value F) → Option String
  given_status none = none
  given_status (some v) = some (str_of py v)

  outcome_status-StatusFor :
      (v : Option (Value F)) → StatusFor (given_status v) (outcome_status py v)
  outcome_status-StatusFor none = no_status
  outcome_status-StatusFor (some v) = elim (Bool-cases (is_outcome (str_of py v))) [
    | inl e ↦ rw (if_true _ _ e) (one_of_six (str_of py v) e)
    | inr e ↦ rw (if_false _ _ e) (none_of_six (str_of py v) e)
  ]

  -- The outcome of an application for a job and a profile that are there, with no analysis named, is
  -- recorded, and saved with the status of the job that it gives: the status of the payload if it
  -- is one of the six, and "saved" otherwise.
  pub create_feedback-status :
      (body : FeedbackEventCreate F) (profile : ProfileRow F) (job : JobRow F) (s : Session F)
      → body.event_type ≡ FeedbackEventType.application_outcome
      → body.job_id ≡ some job.id
      → body.match_analysis_id ≡ none
      → get_profile body.profile_id s ≡ some profile
      → get_job job.id s ≡ some job
      → let run = create_feedback py body s in
        (run.0 ≡ ok (new_event s.rows.next_id body))
        × (run.1.saved ≡ run.1.rows)
        × ((row : JobRow F) × (get_job job.id run.1 ≡ some row)
            × StatusFor (given_status (get "status" body.payload)) row.application_status)
  unfolding create_feedback validate_feedback_references sync_job_application_status_from_feedback
      add_event
  create_feedback-status body profile job s kind names_job no_analysis with_profile with_job = (
    ap (λ (out : Out). out.0) runs,
    subst (λ (out : Out). out.1.saved ≡ out.1.rows) (sym runs) refl,
    (
      changed,
      ap (λ (out : Out). get_job job.id out.1) runs
          ∙ find_row-put_same id_of changed job drafted.rows.jobs still_there,
      outcome_status-StatusFor (get "status" body.payload),
    ),
  )
    where
      Out : Type 0
      Out = Result (FeedbackRow F) × Session F

      event : FeedbackRow F
      event = new_event s.rows.next_id body

      changed : JobRow F
      changed = record job { application_status = outcome_status py (get "status" body.payload) }

      drafted : Session F
      drafted = store_draft py event (draft_of py body.event_type event) (add_event event s)

      checks : validate_feedback_references body s ≡ (ok tt, s)
      checks =
          ap
            (λ (found : Option (ProfileRow F)).
              (or_404 "Profile not found" found >>= λ _.
              check_job body.job_id >>= λ _. check_analysis body body.match_analysis_id)
                s)
            with_profile
          ∙ ap
              (λ (id : Option ℕ).
                (check_job id >>= λ _. check_analysis body body.match_analysis_id) s)
              names_job
          ∙ ap
              (λ (found : Option (JobRow F)).
                ((or_404 "Job not found" found >> pure tt) >>= λ _.
                check_analysis body body.match_analysis_id)
                  s)
              with_job
          ∙ ap (λ (id : Option ℕ). check_analysis body id s) no_analysis

      id_of : JobRow F → ℕ
      id_of row = row.id

      still_there : get_job job.id drafted ≡ some job
      still_there =
          ap (find_row id_of job.id)
            (store_draft-jobs event (draft_of py body.event_type event) (add_event event s))
          ∙ with_job

      status : sync_job_application_status_from_feedback py event drafted ≡ put_job changed drafted
      status =
          if_false _ _ (ap (λ k. not (str_eq (event_value k) "application_outcome")) kind)
          ∙ ap (λ id. status_of_job py event id drafted) names_job
          ∙ ap (λ found. put_status py event found drafted) still_there

      runs : create_feedback py body s ≡ (ok event, commit (put_job changed drafted))
      runs =
          >>=-ok (validate_feedback_references body)
            (λ _ t. record_event py (new_event t.rows.next_id body) t) s checks
          ∙ record_event-recorded event body.event_type s (event_type_of-value body.event_type)
          ∙ ap (λ (t : Session F). (ok event, commit t)) status
