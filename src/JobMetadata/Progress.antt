-- ===== src/JobMetadata/Progress.antt =====
-- Steps of an application that were marked, and the measurement after a resume was changed:
-- app/services/application_progress.py.
use ai_career_os.Common.{
  ℕ, String, ◌≡◌, refl, sym, ap, subst, ◌∙◌, Bool, true, false, not, ◌||◌, Option, none, some,
  str_eq, Bool-cases, ◌⊎◌, inl, inr, if_true, if_false, eq_refl,
}
use ai_career_os.Common.Exec.{Result, ok, err}
use ai_career_os.Json.{
  Value, Fields, boolean, number, text, object, null, array, get, set, update, or_empty,
  dict_or_empty, as_dict, found_true, is_text,
}
use ai_career_os.Json.Dict.{get-set_same, get-set_other}
use ai_career_os.JobMetadata.{
  Numbers, application_progress_key, step_resume, progress_dict, completed_entry, over_existing,
  mark_application_step, read_resume_progress, entry_done, is_application_step_done, resume_entry,
  mark_resume_applied, remeasured, remeasure, record_match_remeasurement, is_none, baseline_float,
  with_resume, with_baseline, artifacts_key, save_job_artifact,
}

module _ {F : Type 0} where
  -- the progress in metadata that was written
  progress_dict-set :
      (progress metadata : Fields F)
      → progress_dict (some (set application_progress_key (object progress) metadata)) ≡ progress
  progress_dict-set progress metadata =
      ap dict_or_empty (get-set_same application_progress_key (object progress) metadata)

  progress_dict-or_empty :
      (raw : Option (Fields F)) → progress_dict (some (or_empty raw)) ≡ progress_dict raw
  progress_dict-or_empty none = unfold get in refl
  progress_dict-or_empty (some metadata) = refl

  completed-over_existing :
      (now : String) (existing : Option (Value F))
      → get "completed" (over_existing existing (completed_entry now)) ≡ some (boolean true)
  unfolding update
  completed-over_existing now (some (object existing)) =
      get-set_other "completed" "completed_at" (text now) (set "completed" (boolean true) existing)
        refl
      ∙ get-set_same "completed" (boolean true) existing
  completed-over_existing now none = unfold get in refl
  completed-over_existing now (some null) = unfold get in refl
  completed-over_existing now (some (boolean b)) = unfold get in refl
  completed-over_existing now (some (number n)) = unfold get in refl
  completed-over_existing now (some (text s)) = unfold get in refl
  completed-over_existing now (some (array vs)) = unfold get in refl

module _ {F : Type 0} (num : Numbers F) where
  open num use {is_zero, of_nat, round_1, minus, to_float}

  pub is_application_step_done-own :
      (now : String) (raw : Option (Fields F)) (step : String)
      → is_application_step_done num (some (mark_application_step now raw step)) step ≡ true
  unfolding is_application_step_done mark_application_step
  is_application_step_done-own now raw step =
      ap (λ d. entry_done num (get step d)) (progress_dict-set _ (or_empty raw))
      ∙ ap (entry_done num) (get-set_same step (object entry) progress)
      ∙ ap (found_true is_zero) (completed-over_existing now (get step progress))
    where
      progress : Fields F
      progress = progress_dict (some (or_empty raw))

      entry : Fields F
      entry = over_existing (get step progress) (completed_entry now)

  -- A step that was marked is done, whatever the metadata was, and every other step is done exactly
  -- when it was before.
  pub is_application_step_done-mark :
      (now : String) (raw : Option (Fields F)) (step other : String)
      → str_eq other step ≡ false
      → (is_application_step_done num (some (mark_application_step now raw step)) step ≡ true)
        × (is_application_step_done num (some (mark_application_step now raw step)) other
            ≡ is_application_step_done num raw other)
  unfolding is_application_step_done mark_application_step
  is_application_step_done-mark now raw step other differs = (
    is_application_step_done-own now raw step,
    ap (λ d. entry_done num (get other d)) written
        ∙ ap (entry_done num) (get-set_other other step (object entry) progress differs)
        ∙ ap (λ d. entry_done num (get other d)) (progress_dict-or_empty raw),
  )
    where
      progress : Fields F
      progress = progress_dict (some (or_empty raw))

      entry : Fields F
      entry = over_existing (get step progress) (completed_entry now)

      written :
          progress_dict (some (mark_application_step now raw step))
          ≡ set step (object entry) progress
      written = progress_dict-set (set step (object entry) progress) (or_empty raw)

module _ {F : Type 0} (num : Numbers F) where
  open num use {is_zero, of_nat, round_1, minus, to_float}

  -- the two tests that leave the metadata as it is
  abbrev is_waiting : Fields F → Bool
  is_waiting resume = found_true is_zero (get "awaiting_reanalysis" resume)

  abbrev is_baseline : String → Fields F → Bool
  is_baseline analysis_id resume =
      is_text analysis_id (get "baseline_analysis_id" resume)
      || is_none num (get "baseline_score" resume)

  -- an entry is left as it is by every measurement, or it is a dict that waits for this one
  remeasure-cases :
      (metadata progress : Fields F) (analysis_id : String) (entry : Option (Value F))
      → ((now : String) (score : F) (gap_count : ℕ)
          → remeasure num now metadata progress analysis_id score gap_count entry ≡ ok metadata)
        ⊎ ((resume : Fields F) × (entry ≡ some (object resume))
            × (not (is_waiting resume) ≡ false)
            × (is_baseline analysis_id resume ≡ false))
  unfolding remeasure
  remeasure-cases metadata progress analysis_id (some (object resume)) =
      elim (Bool-cases (not (is_waiting resume))) [
        | inl still ↦ inl (λ now score gap_count. if_true _ _ still)
        | inr waits ↦ elim (Bool-cases (is_baseline analysis_id resume)) [
          | inl same ↦ inl (λ now score gap_count. if_false _ _ waits ∙ if_true _ _ same)
          | inr new ↦ inr (resume, refl, waits, new)
        ]
      ]
  remeasure-cases metadata progress analysis_id none = inl (λ now score gap_count. refl)
  remeasure-cases metadata progress analysis_id (some null) = inl (λ now score gap_count. refl)
  remeasure-cases metadata progress analysis_id (some (boolean b)) =
      inl (λ now score gap_count. refl)
  remeasure-cases metadata progress analysis_id (some (number n)) =
      inl (λ now score gap_count. refl)
  remeasure-cases metadata progress analysis_id (some (text s)) = inl (λ now score gap_count. refl)
  remeasure-cases metadata progress analysis_id (some (array vs)) =
      inl (λ now score gap_count. refl)

  module _ (now : String) (resume : Fields F) (analysis_id : String) (score baseline : F)
      (gap_count : ℕ) where
    -- the assignments one by one
    abbrev cleared : Fields F
    cleared = set "awaiting_reanalysis" (boolean false) resume

    abbrev dated : Fields F
    dated = set "remeasured_at" (text now) cleared

    abbrev named : Fields F
    named = set "remeasured_analysis_id" (text analysis_id) dated

    abbrev scored : Fields F
    scored = set "remeasured_score" (number (round_1 score)) named

    abbrev compared : Fields F
    compared = set "score_delta" (number (round_1 (minus score baseline))) scored

    awaiting-remeasured :
        get "awaiting_reanalysis" (remeasured num now resume analysis_id score baseline gap_count)
        ≡ some (boolean false)
    unfolding remeasured
    awaiting-remeasured =
        get-set_other _ "remeasured_gap_count" _ compared refl
        ∙ get-set_other _ "score_delta" _ scored refl
        ∙ get-set_other _ "remeasured_score" _ named refl
        ∙ get-set_other _ "remeasured_analysis_id" _ dated refl
        ∙ get-set_other _ "remeasured_at" _ cleared refl
        ∙ get-set_same "awaiting_reanalysis" (boolean false) resume

    delta-remeasured :
        get "score_delta" (remeasured num now resume analysis_id score baseline gap_count)
        ≡ some (number (round_1 (minus score baseline)))
    unfolding remeasured
    delta-remeasured =
        get-set_other _ "remeasured_gap_count" _ compared refl
        ∙ get-set_same "score_delta" (number (round_1 (minus score baseline))) scored

  -- what a measurement writes
  abbrev with_entry : Fields F → Fields F → Fields F → Fields F
  with_entry metadata progress resume =
      set application_progress_key (object (set step_resume (object resume) progress)) metadata

  entry-with_entry :
      (metadata progress resume : Fields F)
      → get step_resume (progress_dict (some (with_entry metadata progress resume)))
        ≡ some (object resume)
  entry-with_entry metadata progress resume =
      ap (get step_resume) (progress_dict-set (set step_resume (object resume) progress) metadata)
      ∙ get-set_same step_resume (object resume) progress

  -- A second measurement for an analysis that was recorded changes nothing.
  pub record_match_remeasurement-twice :
      (now later : String) (raw : Option (Fields F)) (analysis_id : String) (score score' : F)
      (gap_count gap_count' : ℕ) (saved : Fields F)
      → record_match_remeasurement num now raw analysis_id score gap_count ≡ ok saved
      → record_match_remeasurement num later (some saved) analysis_id score' gap_count' ≡ ok saved
  unfolding record_match_remeasurement
  record_match_remeasurement-twice now later raw analysis_id score score' gap_count gap_count' saved
        h =
      elim (remeasure-cases metadata progress analysis_id (get step_resume progress)) [
        | inl still ↦
            let same : saved ≡ metadata = ok-injective (sym h ∙ still now score gap_count) in
            subst
              (λ m.
                record_match_remeasurement num later (some m) analysis_id score' gap_count' ≡ ok m)
              (sym same) (still later score' gap_count')
        | inr (resume, found, waits, new) ↦
            written resume (baseline_float num (get "baseline_score" resume))
              (sym (opened resume found waits new) ∙ h)
      ]
    where
      metadata : Fields F
      metadata = or_empty raw

      progress : Fields F
      progress = progress_dict (some metadata)

      ok-injective : {a b : Fields F} → ok a ≡ ok b → a ≡ b
      ok-injective e = cc

      opened :
          (resume : Fields F)
          → get step_resume progress ≡ some (object resume)
          → not (is_waiting resume) ≡ false
          → is_baseline analysis_id resume ≡ false
          → record_match_remeasurement num now raw analysis_id score gap_count
            ≡ with_resume num metadata progress (
                with_baseline num now resume analysis_id score gap_count
                  (baseline_float num (get "baseline_score" resume)))
      opened resume found waits new =
          ap (remeasure num now metadata progress analysis_id score gap_count) found
          ∙ if_false _ _ waits
          ∙ if_false _ _ new

      written :
          (resume : Fields F) (baseline : Result F)
          → with_resume num metadata progress
              (with_baseline num now resume analysis_id score gap_count baseline)
            ≡ ok saved
          → record_match_remeasurement num later (some saved) analysis_id score' gap_count'
            ≡ ok saved
      written resume (err e) bad = absurd cc
      written resume (ok baseline) good =
          subst
            (λ m.
              record_match_remeasurement num later (some m) analysis_id score' gap_count' ≡ ok m)
            (ok-injective good)
            (ap
                (remeasure num later again (progress_dict (some again)) analysis_id score'
                  gap_count')
                (entry-with_entry metadata progress resume')
              ∙ if_true _ _ (
                  ap (λ flag. not (found_true is_zero flag))
                    (awaiting-remeasured now resume analysis_id score baseline gap_count)))
        where
          resume' : Fields F
          resume' = remeasured num now resume analysis_id score baseline gap_count

          again : Fields F
          again = with_entry metadata progress resume'

  -- A resume that was marked as applied for an analysis waits: a measurement for that analysis
  -- changes nothing, and one for another analysis is recorded, with the difference to the rounded
  -- first score, after which it waits no longer. `float` of a number is that number.
  pub record_match_remeasurement-applied :
      (now soon later : String) (raw : Option (Fields F)) (analysis_id another : String)
      (score score' : F) (gap_count gap_count' suggestions_count : ℕ)
      → ((x : F) → to_float (number x) ≡ ok x)
      → str_eq analysis_id another ≡ false
      → let applied =
          mark_resume_applied num now soon raw analysis_id score gap_count suggestions_count in
        (record_match_remeasurement num later (some applied) analysis_id score' gap_count'
          ≡ ok applied)
        × ((saved : Fields F) × (resume : Fields F) × (record_match_remeasurement num later
                (some applied)
                another
                score'
                gap_count'
              ≡ ok saved)
            × (read_resume_progress (some saved) ≡ some resume)
            × (get "score_delta" resume ≡ some (number (round_1 (minus score' (round_1 score)))))
            × (get "awaiting_reanalysis" resume ≡ some (boolean false)))
  unfolding record_match_remeasurement mark_resume_applied remeasure
  record_match_remeasurement-applied now soon later raw analysis_id another score score' gap_count
        gap_count' suggestions_count floats differs =
      (
        ap
              (remeasure num later applied (progress_dict (some applied)) analysis_id score'
                gap_count')
              found
            ∙ if_false _ _ waiting
            ∙ if_true _ _ (tested analysis_id ∙ ap (λ b. b || false) (eq_refl analysis_id)),
        (
          with_entry applied (set step_resume (object resume) progress) changed,
          changed,
          ap (remeasure num later applied (progress_dict (some applied)) another score' gap_count')
                found
              ∙ if_false _ _ waiting
              ∙ if_false _ _ (tested another ∙ ap (λ b. b || false) differs)
              ∙ ap
                  (λ baseline.
                    with_resume num applied (progress_dict (some applied))
                      (with_baseline num later resume another score' gap_count' baseline))
                  first_score
              ∙ ap (λ p. ok (with_entry applied p changed))
                  (progress_dict-set (set step_resume (object resume) progress) (or_empty raw)),
          ap as_dict (entry-with_entry applied (set step_resume (object resume) progress) changed),
          delta-remeasured later resume another score' (round_1 score) gap_count',
          awaiting-remeasured later resume another score' (round_1 score) gap_count',
        ),
      )
    where
      progress : Fields F
      progress = progress_dict (some (or_empty raw))

      resume : Fields F
      resume = resume_entry num now soon analysis_id score gap_count suggestions_count

      applied : Fields F
      applied = with_entry (or_empty raw) progress resume

      found : get step_resume (progress_dict (some applied)) ≡ some (object resume)
      found = entry-with_entry (or_empty raw) progress resume

      waiting : not (is_waiting resume) ≡ false
      waiting = unfold get in refl

      tested : (id : String) → is_baseline id resume ≡ (str_eq analysis_id id || false)
      tested id = unfold get in refl

      first_score : baseline_float num (get "baseline_score" resume) ≡ ok (round_1 score)
      first_score = unfold get in (floats (round_1 score))

      changed : Fields F
      changed = remeasured num later resume another score' (round_1 score) gap_count'

  -- a saved artifact leaves the steps as they are
  pub is_application_step_done-save :
      (now : String) (metadata : Fields F) (kind analysis_id : String) (result : Fields F)
      (step : String)
      → is_application_step_done num
          (some (save_job_artifact now (some metadata) kind analysis_id result))
          step
        ≡ is_application_step_done num (some metadata) step
  unfolding is_application_step_done save_job_artifact
  is_application_step_done-save now metadata kind analysis_id result step =
      ap (λ found. entry_done num (get step (dict_or_empty found)))
        (get-set_other application_progress_key artifacts_key _ metadata refl)
