-- ===== src/JobMetadata/Artifacts.antt =====
-- Results that were saved under a job: app/services/job_artifacts.py.
use ai_career_os.Common.{
  String, ◌≡◌, refl, ap, ◌∙◌, Bool, false, not, Option, none, some, str_eq, if◌then◌else◌, eq_refl,
  if_true, if_false, Bool-cases, inl, inr,
}
use ai_career_os.Common.Text.{truthy}
use ai_career_os.Json.{
  Fields, end, field, text, object, get, set, or_empty, dict_or_empty, as_dict, is_text,
}
use ai_career_os.Json.Dict.{get-set_same, get-set_other}
use ai_career_os.JobMetadata.{
  artifacts_key, artifacts_dict, save_job_artifact, is_of_another, entry_result, read_job_artifact,
}

module _ {F : Type 0} where
  artifacts_dict-set :
      (artifacts metadata : Fields F)
      → artifacts_dict (some (set artifacts_key (object artifacts) metadata)) ≡ artifacts
  artifacts_dict-set artifacts metadata =
      ap dict_or_empty (get-set_same artifacts_key (object artifacts) metadata)

  artifacts_dict-or_empty :
      (raw : Option (Fields F)) → artifacts_dict (some (or_empty raw)) ≡ artifacts_dict raw
  artifacts_dict-or_empty none = unfold get in refl
  artifacts_dict-or_empty (some metadata) = refl

  module _ (now : String) (raw : Option (Fields F)) (kind analysis_id : String)
      (result : Fields F) where
    abbrev artifacts : Fields F
    artifacts = artifacts_dict (some (or_empty raw))

    abbrev entry : Fields F
    entry =
        field "analysis_id" (text analysis_id)
          (field "result" (object result) (field "generated_at" (text now) end))

    written :
        artifacts_dict (some (save_job_artifact now raw kind analysis_id result))
        ≡ set kind (object entry) artifacts
    unfolding save_job_artifact
    written = artifacts_dict-set (set kind (object entry) artifacts) (or_empty raw)

    same :
        (id : Option String)
        → read_job_artifact (some (save_job_artifact now raw kind analysis_id result)) kind id
          ≡ entry_result id (some (object entry))
    unfolding read_job_artifact save_job_artifact
    same id =
        ap (λ d. entry_result id (get kind d)) written
        ∙ ap (entry_result id) (get-set_same kind (object entry) artifacts)

    id_of_entry : get "analysis_id" entry ≡ some (text analysis_id)
    id_of_entry = unfold get in refl

    found : as_dict (get "result" entry) ≡ some result
    found = unfold get in refl

    read_id : (asked : String) → is_text asked (get "analysis_id" entry) ≡ str_eq analysis_id asked
    read_id asked = ap (is_text asked) id_of_entry

    mine : is_of_another (some analysis_id) entry ≡ false
    mine = elim (Bool-cases (truthy (some analysis_id))) [
      | inl asks ↦ if_true _ _ asks ∙ ap not (read_id analysis_id ∙ eq_refl analysis_id)
      | inr blank ↦ if_false _ _ blank
    ]

    own : entry_result (some analysis_id) (some (object entry)) ≡ some result
    own = ap (λ (b : Bool). if b then none else as_dict (get "result" entry)) mine ∙ found

    pub read_job_artifact-own :
        read_job_artifact
          (some (save_job_artifact now raw kind analysis_id result))
          kind
          (some analysis_id)
        ≡ some result
    read_job_artifact-own = same (some analysis_id) ∙ own

    -- A result that was saved for an analysis is read back, with that analysis or with none asked
    -- for; asking for another analysis, by an id that is not empty, gives nothing; and what is read
    -- of another type is what was read before.
    pub read_job_artifact-save :
        (other asked : String) (id : Option String)
        → str_eq asked "" ≡ false
        → str_eq analysis_id asked ≡ false
        → str_eq other kind ≡ false
        → let saved = some (save_job_artifact now raw kind analysis_id result) in
          (read_job_artifact saved kind (some analysis_id) ≡ some result)
          × (read_job_artifact saved kind none ≡ some result)
          × (read_job_artifact saved kind (some asked) ≡ none)
          × (read_job_artifact saved other id ≡ read_job_artifact raw other id)
    unfolding read_job_artifact save_job_artifact
    read_job_artifact-save other asked id asks distinct differs = (
      read_job_artifact-own,
      same none ∙ found,
      same (some asked) ∙ refused,
      ap (λ d. entry_result id (get other d)) written
          ∙ ap (entry_result id) (get-set_other other kind (object entry) artifacts differs)
          ∙ ap (λ d. entry_result id (get other d)) (artifacts_dict-or_empty raw),
    )
      where
        refused : entry_result (some asked) (some (object entry)) ≡ none
        refused = if_true _ _ (if_true _ _ (ap not asks) ∙ ap not (read_id asked ∙ distinct))
