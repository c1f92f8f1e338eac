-- ===== src/Ats/Greenhouse.antt =====
-- app/services/radar/sources/greenhouse.py.
use Prim.Native.String.{◌++◌ as ◌+++◌}
use ai_career_os.Common.{
  String, Bool, false, not, ◌&&◌, ◌||◌, Option, none, some, List, [], ◌∷◌, str_eq, if◌then◌else◌,
  any,
}
use ai_career_os.Common.Text.{strip, non_blank, is_some}
use ai_career_os.Common.Exec.{Result, ok, err}
use ai_career_os.Json.{Value, Fields, object, get}
use ai_career_os.Radar.Model.{RawPosting}
use ai_career_os.Ats.{
  AtsEnv, AtsSource, fetch_json, probed, value_or, str_or_blank, text_under, mentions_remote,
  payload_without, parse_timestamp, fetched_object, described,
}
use ai_career_os.Ats.Html.{html_to_text}

abbrev pub greenhouse_api : String
greenhouse_api = "https://boards-api.greenhouse.io/v1/boards"

abbrev pub greenhouse_patterns : List String
greenhouse_patterns =
    "(?:job-)?boards\\.greenhouse\\.io/(?:embed/job_board\\?for=)?([a-z0-9_-]+)"
    ∷ "([a-z0-9_-]+)\\.greenhouse\\.io" ∷ []

abbrev pub greenhouse_hosts : List String
greenhouse_hosts = "www" ∷ "boards" ∷ "job-boards" ∷ "api" ∷ "boards-api" ∷ []

module _ {F : Type 0} (env : AtsEnv F) where
  open env use {re_group, unescape, lower}

  -- `isinstance(raw_location, dict)`: the text under its name
  abbrev pub greenhouse_location : Option (Value F) → Option String
  greenhouse_location (some (object location)) = non_blank (text_under env "name" location)
  greenhouse_location _ = none

  abbrev pub text_of_unescaped : Result String → Result String
  text_of_unescaped (err e) = err e
  text_of_unescaped (ok html) = html_to_text env html

  abbrev pub greenhouse_description : Fields F → Result String
  greenhouse_description job = text_of_unescaped (unescape (str_or_blank env (get "content" job)))

  -- the posting of a job with its id, its title and its description
  abbrev pub greenhouse_filled : Fields F → String → String → String → RawPosting
  greenhouse_filled job external_id title description =
      let location = greenhouse_location (get "location" job) in
      record {
        external_id = external_id;
        title = title;
        description = description;
        url = non_blank (text_under env "absolute_url" job);
        location = location;
        remote_flag = mentions_remote env location;
        posted_at =
            parse_timestamp env (value_or env (get "first_published" job) (get "updated_at" job));
        raw_payload = payload_without env ("content" ∷ []) job;
      }

  unfoldable pub greenhouse_posting : Value F → Result (Option RawPosting)
  unfolding html_to_text
  greenhouse_posting (object job) =
      let external_id = text_under env "id" job in
      let title = text_under env "title" job in
      if str_eq external_id "" || str_eq title ""
      then ok none
      else described env (greenhouse_filled job external_id title) (greenhouse_description job)
  greenhouse_posting _ = ok none

  -- the token of a match, unless it names a host of the provider
  abbrev pub greenhouse_token : Option String → Option String
  greenhouse_token none = none
  greenhouse_token (some group) =
      let token = lower (strip group) in
      if not (str_eq token "") && not (any (λ host. str_eq token host) greenhouse_hosts)
      then some token
      else none

  abbrev pub first_token : Option String → Option String → Option String
  first_token (some token) later = some token
  first_token none later = later

  -- the loop over the patterns
  unfoldable pub greenhouse_matches : List String → String → Option String
  greenhouse_matches [] url = none
  greenhouse_matches (pattern' ∷ patterns) url =
      first_token (greenhouse_token (re_group pattern' url)) (greenhouse_matches patterns url)

  -- `isinstance(payload, dict) and "jobs" in payload`
  abbrev pub has_jobs : Value F → Bool
  has_jobs (object payload) = is_some (get "jobs" payload)
  has_jobs _ = false

  unfoldable pub greenhouse : AtsSource
  unfolding greenhouse_matches greenhouse_posting fetch_json
  greenhouse = record {
    provider = "greenhouse";
    matches_url = greenhouse_matches greenhouse_patterns;
    board_url = λ token. "https://job-boards.greenhouse.io/" +++ token;
    probe = λ token.
        probed env has_jobs
          (fetch_json env "greenhouse" (greenhouse_api +++ "/" +++ token +++ "/jobs"));
    fetch = λ token.
        fetched_object env "Greenhouse" greenhouse_posting
          (fetch_json env "greenhouse" (greenhouse_api +++ "/" +++ token +++ "/jobs?content=true"));
  }
