-- ===== src/Ats/Lever.antt =====
-- app/services/radar/sources/lever.py.
use Prim.Native.String.{◌++◌ as ◌+++◌}
use ai_career_os.Common.{
  String, Bool, true, false, not, ◌||◌, Option, none, some, List, [], ◌∷◌, ◌++◌, str_eq,
  if◌then◌else◌, filter,
}
use ai_career_os.Common.Text.{strip, non_blank, join, contains}
use ai_career_os.Common.Exec.{Result, ok, err}
use ai_career_os.Json.{Value, Items, Fields, nil, cons, text, array, object, get, dict_or_empty}
use ai_career_os.Radar.Model.{RawPosting}
use ai_career_os.Ats.{
  AtsEnv, AtsSource, fetch_json, probed, value_or, str_or_blank, text_under, mentions_remote,
  payload_without, parse_epoch_ms, fetched_list, described,
}
use ai_career_os.Ats.Html.{html_to_text}

abbrev pub lever_api : String
lever_api = "https://api.lever.co/v0/postings"

abbrev pub description_fields : List String
description_fields =
    "description" ∷ "descriptionPlain" ∷ "lists" ∷ "additional" ∷ "additionalPlain" ∷ []

module _ {F : Type 0} (env : AtsEnv F) where
  open env use {re_group, lower}

  -- `parts.append(...)`
  abbrev pub one_part : Result String → Result (List String)
  one_part (err e) = err e
  one_part (ok part) = ok (part ∷ [])

  -- the parts of two steps, one after the other
  abbrev pub then_parts : Result (List String) → Result (List String) → Result (List String)
  then_parts (err e) later = err e
  then_parts (ok parts) (err e) = err e
  then_parts (ok parts) (ok more) = ok (parts ++ more)

  -- a text that may be HTML, if it is not blank
  abbrev pub part_of : Option (Value F) → Result (List String)
  part_of (some (text body)) =
      if str_eq (strip body) ""
      then ok []
      else if contains "<" body
      then one_part (html_to_text env body)
      else ok (strip body ∷ [])
  part_of _ = ok []

  abbrev pub section_of : String → String → List String
  section_of heading section =
      if str_eq section ""
      then []
      else if str_eq heading ""
      then section ∷ []
      else (heading +++ "\n" +++ section) ∷ []

  abbrev pub section_parts : String → Result String → Result (List String)
  section_parts heading (err e) = err e
  section_parts heading (ok section) = ok (section_of heading section)

  -- one entry of the lists
  abbrev pub list_part : Value F → Result (List String)
  list_part (object entry) =
      let content = str_or_blank env (get "content" entry) in
      section_parts (text_under env "text" entry)
        (if str_eq content "" then ok "" else html_to_text env content)
  list_part _ = ok []

  unfoldable pub list_parts : Items F → Result (List String)
  unfolding html_to_text
  list_parts nil = ok []
  list_parts (cons entry entries) =
      let rest = list_parts entries in then_parts (list_part entry) rest

  abbrev pub lists_of : Option (Value F) → Result (List String)
  lists_of (some (array entries)) = list_parts entries
  lists_of _ = ok []

  -- `"\n\n".join(part for part in parts if part).strip()`
  abbrev pub joined_parts : Result (List String) → Result String
  joined_parts (err e) = err e
  joined_parts (ok parts) = ok (strip (join "\n\n" (filter (λ part. not (str_eq part "")) parts)))

  unfoldable pub full_description : Fields F → Result String
  unfolding list_parts
  full_description job = joined_parts (
      then_parts
        (then_parts (part_of (value_or env (get "descriptionPlain" job) (get "description" job)))
          (lists_of (get "lists" job)))
        (part_of (value_or env (get "additionalPlain" job) (get "additional" job))))

  -- the posting of a job with its id, its title and its description
  abbrev pub lever_filled : Fields F → String → String → String → RawPosting
  lever_filled job external_id title description =
      let location = non_blank (text_under env "location" (dict_or_empty (get "categories" job))) in
      let workplace = lower (text_under env "workplaceType" job) in
      record {
        external_id = external_id;
        title = title;
        description = description;
        url =
            non_blank
              (strip (str_or_blank env (value_or env (get "hostedUrl" job) (get "applyUrl" job))));
        location = location;
        remote_flag = str_eq workplace "remote" || mentions_remote env location;
        posted_at = parse_epoch_ms env (get "createdAt" job);
        raw_payload = payload_without env description_fields job;
      }

  unfoldable pub lever_posting : Value F → Result (Option RawPosting)
  unfolding full_description
  lever_posting (object job) =
      let external_id = text_under env "id" job in
      let title = text_under env "text" job in
      if str_eq external_id "" || str_eq title ""
      then ok none
      else described env (lever_filled job external_id title) (full_description job)
  lever_posting _ = ok none

  abbrev pub lever_token : Option String → Option String
  lever_token none = none
  lever_token (some group) = non_blank (lower (strip group))

  abbrev pub is_list : Value F → Bool
  is_list (array jobs) = true
  is_list _ = false

  unfoldable pub lever : AtsSource
  unfolding lever_posting fetch_json
  lever = record {
    provider = "lever";
    matches_url = λ url. lever_token (re_group "(?:jobs|hire)\\.lever\\.co/([a-z0-9_-]+)" url);
    board_url = λ token. "https://jobs.lever.co/" +++ token;
    probe = λ token.
        probed env is_list
          (fetch_json env "lever" (lever_api +++ "/" +++ token +++ "?mode=json&limit=1"));
    fetch = λ token.
        fetched_list env "Lever" lever_posting
          (fetch_json env "lever" (lever_api +++ "/" +++ token +++ "?mode=json"));
  }
