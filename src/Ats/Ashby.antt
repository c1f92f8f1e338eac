-- ===== src/Ats/Ashby.antt =====
-- app/services/radar/sources/ashby.py.
use Prim.Native.String.{◌++◌ as ◌+++◌}
use ai_career_os.Common.{
  String, Bool, true, false, ◌||◌, Option, none, some, List, [], ◌∷◌, str_eq, if◌then◌else◌, any,
}
use ai_career_os.Common.Text.{strip, non_blank}
use ai_career_os.Common.Exec.{Result, ok}
use ai_career_os.Json.{Value, Fields, text, array, object, get, found_true}
use ai_career_os.Radar.Model.{RawPosting}
use ai_career_os.Ats.{
  AtsEnv, AtsSource, fetch_json, probed, value_or, str_or_blank, text_under, mentions_remote,
  payload_without, parse_timestamp, fetched_object, described,
}
use ai_career_os.Ats.Html.{html_to_text}

abbrev pub ashby_api : String
ashby_api = "https://api.ashbyhq.com/posting-api/job-board"

module _ {F : Type 0} (env : AtsEnv F) where
  open env use {re_group, lower, is_zero}

  -- the plain text that is not blank, or that of the HTML
  abbrev pub ashby_description : Fields F → Option (Value F) → Result String
  ashby_description job (some (text plain)) =
      if str_eq (strip plain) ""
      then html_to_text env (str_or_blank env (get "descriptionHtml" job))
      else ok (strip plain)
  ashby_description job _ = html_to_text env (str_or_blank env (get "descriptionHtml" job))

  -- the posting of a job with its id, its title and its description
  abbrev pub ashby_filled : Fields F → String → String → String → RawPosting
  ashby_filled job external_id title description =
      let location = non_blank (text_under env "location" job) in
      record {
        external_id = external_id;
        title = title;
        description = description;
        url =
            non_blank
              (strip (str_or_blank env (value_or env (get "jobUrl" job) (get "applyUrl" job))));
        location = location;
        remote_flag = found_true is_zero (get "isRemote" job) || mentions_remote env location;
        posted_at =
            parse_timestamp env (value_or env (get "publishedAt" job) (get "updatedAt" job));
        raw_payload = payload_without env ("descriptionHtml" ∷ "descriptionPlain" ∷ []) job;
      }

  unfoldable pub ashby_posting : Value F → Result (Option RawPosting)
  unfolding html_to_text
  ashby_posting (object job) =
      let external_id = text_under env "id" job in
      let title = text_under env "title" job in
      if str_eq external_id "" || str_eq title ""
      then ok none
      else described env (ashby_filled job external_id title)
          (ashby_description job (get "descriptionPlain" job))
  ashby_posting _ = ok none

  abbrev pub ashby_hosts : List String
  ashby_hosts = "www" ∷ "api" ∷ "posting-api" ∷ []

  abbrev pub ashby_token : Option String → Option String
  ashby_token none = none
  ashby_token (some group) =
      let token = lower (strip group) in
      if str_eq token "" || any (λ host. str_eq token host) ashby_hosts then none else some token

  -- `isinstance(payload, dict) and isinstance(payload.get("jobs"), list)`
  abbrev pub lists_jobs : Value F → Bool
  lists_jobs (object payload) = elim (get "jobs" payload) [ some (array jobs) ↦ true | _ ↦ false ]
  lists_jobs _ = false

  unfoldable pub ashby : AtsSource
  unfolding ashby_posting fetch_json
  ashby = record {
    provider = "ashby";
    matches_url = λ url.
        ashby_token
          (re_group "(?:jobs\\.ashbyhq\\.com|ashbyhq\\.com/job-board)/([a-z0-9_.-]+)" url);
    board_url = λ token. "https://jobs.ashbyhq.com/" +++ token;
    probe = λ token. probed env lists_jobs (fetch_json env "ashby" (ashby_api +++ "/" +++ token));
    fetch = λ token.
        fetched_object env "Ashby" ashby_posting
          (fetch_json env "ashby" (ashby_api +++ "/" +++ token +++ "?includeCompensation=true"));
  }
