-- ===== src/Tracker/Memory.antt =====
-- Career memory, which is made of feedback: app/services/memory/synthesizer.py and
-- `sync_career_memory_from_feedback` of app/services/memory/context.py. SHA-256, `str` of a UUID and
-- `str` of a JSON value that is no text are parameters.
pub mod Active
use Prim.Native.Char.{Char, code}
use Prim.Native.String.{◌++◌ as ◌+++◌}
use ai_career_os.Common.{
  ℕ, suc, ◌+◌, String, Bool, true, false, not, ◌&&◌, ◌||◌, Option, none, some, List, [], ◌∷◌, ◌++◌,
  map, ◌==◌, str_eq, if◌then◌else◌, find?,
}
use ai_career_os.Common.Text.{strip, slice_to, join, truthy, or_blank, str_or}
use ai_career_os.Common.Exec.{Exception, Result, ok, err, Exec}
use ai_career_os.Json.{Value, Fields, null, boolean, number, text, array, object, get, found_true}
use ai_career_os.Tracker.Model.{FeedbackRow, MemoryRow, Session, change}

pub data FeedbackEventType : Type 0 where
  match_helpful gap_dispute strength_confirm preference application_outcome : FeedbackEventType

-- the value of the enumeration
abbrev pub event_value : FeedbackEventType → String
event_value match_helpful = "match_helpful"
event_value gap_dispute = "gap_dispute"
event_value strength_confirm = "strength_confirm"
event_value preference = "preference"
event_value application_outcome = "application_outcome"

abbrev pub event_types : List FeedbackEventType
event_types = match_helpful ∷ gap_dispute ∷ strength_confirm ∷ preference ∷ application_outcome ∷ []

-- `FeedbackEventType(value)`
abbrev pub event_type_of : String → Option FeedbackEventType
event_type_of value = find? (λ kind. str_eq (event_value kind) value) event_types

pub record MemoryDraft : Type 0 where
  pub category : String
  pub content : String
  pub memory_key : Option String

-- What the code asks of Python and hashlib.
pub record Texts (F : Type 0) : Type 0 where
  -- the hexadecimal digest of SHA-256 of the text in UTF-8
  pub sha256_hex : String → String
  pub uuid_str : ℕ → String
  -- `str(value)` of a value that is no text
  pub str_other : Value F → String
  pub is_zero : F → Bool

-- `status.replace('_', ' ')`
unfoldable pub underscores_to_spaces : String → String
underscores_to_spaces String.[] = ""
underscores_to_spaces (String.◌∷◌ c s) =
    let rest = underscores_to_spaces s in if code c == 95 then " " +++ rest else String.◌∷◌ c rest

-- the condition of the UPDATE: a column that is NULL is equal to nothing
abbrev pub is_superseded : ℕ → String → MemoryRow → Bool
is_superseded profile_id key row =
    row.profile_id == profile_id
    && elim row.memory_key [ none ↦ false | some k ↦ str_eq k key ]
    && row.active

unfoldable pub supersede : ℕ → Option String → List MemoryRow → List MemoryRow
supersede profile_id none rows = rows
supersede profile_id (some key) rows =
    if str_eq key ""
    then rows
    else map
        (λ (row : MemoryRow).
          if is_superseded profile_id key row then record row { active = false } else row)
        rows

module _ {F : Type 0} (py : Texts F) where
  open py use {sha256_hex, uuid_str, str_other, is_zero}

  abbrev pub str_of : Value F → String
  str_of (text s) = s
  str_of v = str_other v

  -- `str(payload.get(key, "")).strip()`
  unfoldable pub text_at : String → Fields F → String
  text_at key payload = strip (elim (get key payload) [ none ↦ "" | some v ↦ str_of v ])

  -- `str(payload.get(key) or "").strip()`
  unfoldable pub note_at : String → Fields F → String
  note_at key payload = strip (elim (get key payload) [
    | none ↦ ""
    | some v ↦ if found_true is_zero (some v) then str_of v else ""
  ])

  abbrev pub hash_key : String → String → String
  hash_key kind value = kind +++ ":" +++ slice_to 16 (sha256_hex value)

  -- `str(event.job_id)`
  abbrev pub job_id_str : Option ℕ → String
  job_id_str none = "None"
  job_id_str (some id) = uuid_str id

  abbrev pub job_hint : Option ℕ → String
  job_hint none = ""
  job_hint (some id) = " for job " +++ uuid_str id

  -- a note behind a space, if there is one
  abbrev pub spaced_note : String → String
  spaced_note note = if str_eq note "" then "" else " " +++ note

  unfoldable pub gap_draft : String → String → Option MemoryDraft
  gap_draft gap_evidence note =
      if str_eq gap_evidence ""
      then none
      else some (record {
        category = "correction";
        content =
            "User disputes this gap: \""
            +++ gap_evidence
            +++ "\""
            +++ (if str_eq note ""
                then ". They believe their resume already covers this."
                else ". Their note: " +++ note);
        memory_key = some (hash_key "gap" gap_evidence);
      })

  unfoldable pub strength_draft : String → Option MemoryDraft
  strength_draft strength =
      if str_eq strength ""
      then none
      else some (record {
        category = "correction";
        content = "User confirmed this strength is accurate: \"" +++ strength +++ "\"";
        memory_key = some (hash_key "strength" strength);
      })

  unfoldable pub preference_draft : String → String → String → Option MemoryDraft
  preference_draft key value note =
      if str_eq key "" || str_eq value ""
      then none
      else some (record {
        category = "preference";
        content = "Career preference — " +++ key +++ ": " +++ value +++ "." +++ spaced_note note;
        memory_key = some (hash_key "pref" key);
      })

  unfoldable pub outcome_draft : Option ℕ → String → String → Option MemoryDraft
  unfolding underscores_to_spaces
  outcome_draft job_id status note =
      if str_eq status "" || str_eq status "saved"
      then none
      else some (record {
        category = "outcome_pattern";
        content =
            "Application outcome"
            +++ job_hint job_id
            +++ ": "
            +++ underscores_to_spaces status
            +++ "."
            +++ spaced_note note;
        memory_key = some (hash_key "outcome" (job_id_str job_id +++ ":" +++ status));
      })

  unfoldable pub draft_of : FeedbackEventType → FeedbackRow F → Option MemoryDraft
  unfolding gap_draft strength_draft preference_draft outcome_draft text_at note_at
  draft_of match_helpful event = none
  draft_of gap_dispute event =
      gap_draft (text_at "gap_evidence" event.payload) (note_at "user_note" event.payload)
  draft_of strength_confirm event = strength_draft (text_at "strength_evidence" event.payload)
  draft_of preference event =
      preference_draft (text_at "key" event.payload) (text_at "value" event.payload)
        (note_at "note" event.payload)
  draft_of application_outcome event =
      outcome_draft event.job_id (text_at "status" event.payload) (note_at "note" event.payload)

  abbrev pub draft_for : FeedbackRow F → Option FeedbackEventType → Result (Option MemoryDraft)
  draft_for event none =
      err
        (Exception.value_error ("'" +++ event.event_type +++ "' is not a valid FeedbackEventType"))
  draft_for event (some kind) = ok (draft_of kind event)

  unfoldable pub draft_memory_from_feedback : FeedbackRow F → Result (Option MemoryDraft)
  unfolding draft_of
  draft_memory_from_feedback event = draft_for event (event_type_of event.event_type)

  abbrev pub new_memory : ℕ → FeedbackRow F → MemoryDraft → MemoryRow
  new_memory id event draft = record {
    id = id;
    profile_id = event.profile_id;
    category = draft.category;
    content = draft.content;
    memory_key = draft.memory_key;
    source_feedback_ids = uuid_str event.id ∷ [];
    active = true;
  }

  unfoldable pub store_draft : FeedbackRow F → Option MemoryDraft → Session F → Session F
  unfolding supersede
  store_draft event none s = s
  store_draft event (some draft) s =
      change
        (λ rows. record rows {
          memories =
              supersede event.profile_id draft.memory_key rows.memories
              ++ (new_memory rows.next_id event draft ∷ []);
          next_id = rows.next_id + 1;
        })
        s

  abbrev pub sync_draft : FeedbackRow F → Result (Option MemoryDraft) → Exec (Session F) (Unit {0})
  sync_draft event (ok draft) s = (ok tt, store_draft event draft s)
  sync_draft event (err e) s = (err e, s)

  unfoldable pub sync_career_memory_from_feedback : FeedbackRow F → Exec (Session F) (Unit {0})
  unfolding draft_memory_from_feedback store_draft
  sync_career_memory_from_feedback event = sync_draft event (draft_memory_from_feedback event)
