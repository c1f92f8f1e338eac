-- ===== src/Radar/Screener.antt =====
-- app/services/radar/screener.py: the free structural filter (tier 0) and the capped screening by
-- a language model (tier 1). The postings that are screened are rows that the session holds, so
-- the loop returns them as it leaves them, also when it is cut off by an exception.
pub mod Criteria
pub mod Loop
pub mod Outage
use Prim.Native.String.{◌++◌ as ◌+++◌}
use ai_career_os.Common.{
  ℕ, zero, suc, ◌+◌, String, Bool, true, false, not, ◌&&◌, ◌||◌, Option, none, some, List, [], ◌∷◌,
  ◌++◌, ltb, leb, if◌then◌else◌, any, is_empty, take, drop,
}
use ai_career_os.Common.Text.{
  Unicode, strip, contains, slice_to, search_phrases, or_blank, str_or, truthy,
}
use ai_career_os.Common.Exec.{is_llm_or_value_error, Result, ok, err}
use ai_career_os.Radar.Model.{
  RemotePreference, WatchCriteria, RawPosting, Profile, Posting, PostingState, PostingScreenResult,
  Message, Role,
}

abbrev pub screen_description_chars : ℕ
screen_description_chars = 1500

abbrev pub screen_profile_chars : ℕ
screen_profile_chars = 1200

abbrev pub screen_max_tokens : ℕ
screen_max_tokens = 256

abbrev pub max_consecutive_failures : ℕ
max_consecutive_failures = 2

-- the alternatives of the three patterns, an optional hyphen written out
abbrev pub remote_phrases : List String
remote_phrases = "remote" ∷ "work from home" ∷ "anywhere" ∷ []

abbrev pub onsite_phrases : List String
onsite_phrases = "on-site" ∷ "onsite" ∷ "in-office" ∷ "inoffice" ∷ []

abbrev pub hybrid_phrases : List String
hybrid_phrases = "hybrid" ∷ []

-- `criteria.remote in {"any", "remote"}`
abbrev pub admits_remote : RemotePreference → Bool
admits_remote RemotePreference.any = true
admits_remote RemotePreference.remote = true
admits_remote _ = false

module _ (u : Unicode) where
  open u use {casefold}

  -- `any(term.casefold() in text for term in terms)`
  unfoldable pub mentions : List String → String → Bool
  mentions terms text = any (λ term. contains (casefold term) text) terms

  unfoldable pub location_passes : RawPosting → WatchCriteria → Bool
  location_passes posting criteria =
      let haystack = casefold (or_blank posting.location +++ " " +++ posting.title) in
      let remote_ok = posting.remote_flag && admits_remote criteria.remote in
      is_empty criteria.locations || remote_ok || mentions criteria.locations haystack

  unfoldable pub remote_passes : RawPosting → RemotePreference → Bool
  remote_passes posting RemotePreference.any = true
  remote_passes posting RemotePreference.remote =
      posting.remote_flag
      || search_phrases u remote_phrases (posting.title +++ " " +++ or_blank posting.location)
  remote_passes posting RemotePreference.onsite = not (
      posting.remote_flag
      || search_phrases u remote_phrases (posting.title +++ " " +++ or_blank posting.location))
  remote_passes posting RemotePreference.hybrid =
      let blob = posting.title +++ " " +++ or_blank posting.location in
      search_phrases u hybrid_phrases blob || search_phrases u onsite_phrases blob

  unfoldable pub matches_criteria : RawPosting → WatchCriteria → Bool
  unfolding mentions location_passes remote_passes
  matches_criteria posting criteria =
      let title = casefold posting.title in
      if mentions criteria.exclude title
      then false
      else if not (is_empty criteria.titles) && not (mentions criteria.titles title)
      then false
      else if not (location_passes posting criteria)
      then false
      else remote_passes posting criteria.remote

unfoldable pub build_screen_user_message : Profile → Posting → String
build_screen_user_message profile posting =
    let summary = slice_to screen_profile_chars (strip profile.resume_text) in
    let description = slice_to screen_description_chars (strip posting.description) in
    let location = str_or (or_blank posting.location) "Not stated" in
    "CANDIDATE PROFILE\nName: "
    +++ profile.name
    +++ "\nHeadline: "
    +++ str_or (or_blank profile.headline) "Not stated"
    +++ "\nResume excerpt:\n"
    +++ summary
    +++ "\n\nJOB POSTING\nTitle: "
    +++ posting.title
    +++ "\nLocation: "
    +++ location
    +++ (if posting.remote_flag then " (remote)" else "")
    +++ "\nDescription excerpt:\n"
    +++ description

-- The client: the answer to the n-th call.
abbrev pub ScreenLlm : Type 0
ScreenLlm = ℕ → List Message → ℕ → Result PostingScreenResult

-- What a run of the loop leaves: the rows, the calls made, and its value or exception.
pub record Screening : Type 0 where
  pub postings : List Posting
  pub calls : ℕ
  pub result : Result ℕ

-- the row after a score, and the run with the row in front of those that follow
unfoldable pub apply_score : Posting → PostingScreenResult → Posting
apply_score posting result = record posting {
  screen_score = some result.fit_score;
  screen_reason = some result.reason;
  state = PostingState.screened;
}

abbrev pub in_front : Posting → Screening → Screening
in_front posting rest = record rest { postings = posting ∷ rest.postings }

abbrev pub stopped : List Posting → ℕ → Result ℕ → Screening
stopped postings calls result = record { postings = postings; calls = calls; result = result }

-- One round of the loop, from the answer and the rest of the loop, which takes
-- `consecutive_failures` and `scored`.
unfoldable pub screen_round :
    (ℕ → ℕ → Screening)
    → Posting
    → List Posting
    → ℕ
    → ℕ
    → ℕ
    → Result PostingScreenResult
    → Screening
unfolding apply_score
screen_round continue posting rest failures calls scored (ok result) =
    in_front (apply_score posting result) (continue 0 (scored + 1))
screen_round continue posting rest failures calls scored (err e) =
    if is_llm_or_value_error e
    then (if leb max_consecutive_failures (failures + 1)
        then stopped (posting ∷ rest) calls (ok scored)
        else in_front posting (continue (failures + 1) scored))
    else stopped (posting ∷ rest) calls (err e)

-- The prompt file `posting_screen` is a parameter.
module _ (posting_screen : String) (llm : ScreenLlm) (profile : Profile) where
  unfoldable pub screen_messages : Posting → List Message
  screen_messages posting =
      record { role = Role.system; content = posting_screen }
      ∷ record { role = Role.user; content = build_screen_user_message profile posting }
      ∷ []

  unfoldable pub screen_posting : ℕ → Posting → Result PostingScreenResult
  unfolding screen_messages
  screen_posting calls posting = llm calls (screen_messages posting) screen_max_tokens

  -- `for posting in batch`
  unfoldable pub screen_loop : List Posting → ℕ → ℕ → ℕ → Screening
  unfolding screen_round screen_posting
  screen_loop [] failures calls scored = stopped [] calls (ok scored)
  screen_loop (posting ∷ rest) failures calls scored =
      screen_round (λ f s. screen_loop rest f (calls + 1) s) posting rest failures (calls + 1)
        scored (screen_posting calls posting)

  -- `limit` is the setting `radar_screen_limit_per_poll` where the caller gives none.
  unfoldable pub screen_postings : ℕ → List Posting → ℕ → Screening
  unfolding screen_loop
  screen_postings limit postings calls =
      let run = screen_loop (take limit postings) 0 calls 0 in
      record run { postings = run.postings ++ drop limit postings }
