-- ===== src/Ats.antt =====
-- The boards that Radar reads: app/services/radar/sources/transport.py and what its three sources
-- share. HTTP, regular expressions, the tags and texts that `HTMLParser` finds, `html.unescape`,
-- dates, `str` of a JSON value that is no text and `str.lower` are parameters. The trace of a call is left out.
pub mod Html
pub mod Greenhouse
pub mod Lever
pub mod Ashby
pub mod Resolver
mod Descriptions
mod Readable
mod Tests
use Prim.Native.String.{◌++◌ as ◌+++◌}
use ai_career_os.Common.{
  ℕ, String, Bool, true, false, not, ◌&&◌, ◌||◌, Option, none, some, List, [], ◌∷◌, leb, ◌==◌,
  str_eq, if◌then◌else◌, any, filter, map,
}
use ai_career_os.Common.Text.{strip, str_nat, non_blank, or_blank, truthy}
use ai_career_os.Common.Exec.{Exception, Result, ok, err}
use ai_career_os.Json.{
  Value, Items, Fields, nil, cons, end, field, null, boolean, number, text, array, object, get,
  is_true, found_true,
}
use ai_career_os.Radar.Model.{RawPosting, Payload}

-- What a GET request gives: an `httpx.HTTPError` with its text, another exception, or a response
-- with its status and the value of `response.json()`, which may be invalid.
pub data HttpAnswer (F : Type 0) : Type 0 where
  http_error : String → HttpAnswer F
  raised : Exception → HttpAnswer F
  response : ℕ → Option (Value F) → HttpAnswer F

-- What `html.parser.HTMLParser` hands to the methods of a subclass.
pub data HtmlEvent : Type 0 where
  start_tag : String → HtmlEvent
  end_tag : String → HtmlEvent
  text_data : String → HtmlEvent

pub record AtsEnv (F : Type 0) : Type 0 where
  pub http_get : String → HttpAnswer F
  -- the first group of `re.compile(pattern, re.I).search(s)`, and whether there is a match
  pub re_group : String → String → Option String
  pub re_found : String → String → Bool
  -- `re.sub(pattern, repl, s)`
  pub re_sub : String → String → String → String
  -- `feed` and `close` of `HTMLParser`, and `html.unescape`: both may raise
  pub parse_html : String → Result (List HtmlEvent)
  pub unescape : String → Result String
  -- `datetime.fromisoformat(s.replace("Z", "+00:00"))`
  pub parse_iso : String → Option ℕ
  -- `value > 0` and `datetime.fromtimestamp(value / 1000)`
  pub is_positive : F → Bool
  pub from_epoch_ms : F → Option ℕ
  pub one : F
  pub is_zero : F → Bool
  pub str_other : Value F → String
  pub json_text : Value F → String
  pub lower : String → String

-- `AtsSource` of app/services/radar/sources/base.py
pub record AtsSource : Type 0 where
  pub provider : String
  pub matches_url : String → Option String
  pub board_url : String → String
  pub probe : String → Result Bool
  pub fetch : String → Result (List RawPosting)

-- `except AtsError`, of which `AtsBoardNotFoundError` is a subclass
abbrev pub is_ats_error : Exception → Bool
is_ats_error (Exception.ats_error m) = true
is_ats_error (Exception.board_not_found m) = true
is_ats_error _ = false

module _ {F : Type 0} (env : AtsEnv F) where
  open env use {
    http_get, re_group, re_found, parse_iso, is_positive, from_epoch_ms, one, is_zero, str_other,
    json_text,
  }

  abbrev pub json_of : String → Option (Value F) → Result (Value F)
  json_of provider none = err (Exception.ats_error (provider +++ " board returned invalid JSON"))
  json_of provider (some payload) = ok payload

  unfoldable pub received_json : String → HttpAnswer F → Result (Value F)
  received_json provider (http_error m) =
      err (Exception.ats_error (provider +++ " board request failed: " +++ m))
  received_json provider (raised e) = err e
  received_json provider (response status payload) =
      if status == 404
      then err (Exception.board_not_found (provider +++ " board not found"))
      else if leb 400 status
      then err (Exception.ats_error (provider +++ " board returned HTTP " +++ str_nat status))
      else json_of provider payload

  unfoldable pub fetch_json : String → String → Result (Value F)
  unfolding received_json
  fetch_json provider url = received_json provider (http_get url)

  -- `except (AtsBoardNotFoundError, AtsError): return False`
  abbrev pub probed : (Value F → Bool) → Result (Value F) → Result Bool
  probed test (ok payload) = ok (test payload)
  probed test (err e) = if is_ats_error e then ok false else err e

  -- `a or b` on values that may be missing
  abbrev pub value_or : Option (Value F) → Option (Value F) → Option (Value F)
  value_or a b = if found_true is_zero a then a else b

  abbrev pub str_of_value : Option (Value F) → String
  str_of_value none = ""
  str_of_value (some (text s)) = s
  str_of_value (some v) = str_other v

  -- `str(value or "")`
  abbrev pub str_or_blank : Option (Value F) → String
  str_or_blank v = if found_true is_zero v then str_of_value v else ""

  -- `str(job.get(key) or "").strip()`
  unfoldable pub text_under : String → Fields F → String
  unfolding strip
  text_under key job = strip (str_or_blank (get key job))

  -- `bool(location and _REMOTE_PATTERN.search(location))`
  abbrev pub mentions_remote : Option String → Bool
  mentions_remote location = truthy location && re_found "\\bremote\\b" (or_blank location)

  -- `{k: v for k, v in job.items() if k not in left_out}`
  unfoldable pub payload_without : List String → Fields F → Payload
  payload_without left_out end = []
  payload_without left_out (field k v rest) =
      let later = payload_without left_out rest in
      if any (λ name. str_eq k name) left_out then later else (k, json_text v) ∷ later

  -- `_parse_timestamp`
  abbrev pub parse_timestamp : Option (Value F) → Option ℕ
  parse_timestamp (some (text s)) = if str_eq (strip s) "" then none else parse_iso s
  parse_timestamp _ = none

  -- `_parse_epoch_ms`: a `bool` is an `int`
  abbrev pub parse_epoch_ms : Option (Value F) → Option ℕ
  parse_epoch_ms (some (number n)) = if is_positive n then from_epoch_ms n else none
  parse_epoch_ms (some (boolean b)) = if b then from_epoch_ms one else none
  parse_epoch_ms _ = none

  -- the end of `_to_posting`: no posting where the description is empty
  abbrev pub described : (String → RawPosting) → Result String → Result (Option RawPosting)
  described posting (err e) = err e
  described posting (ok description) =
      ok (if str_eq description "" then none else some (posting description))

  -- one round of the loop over the jobs, from the rest of the loop
  abbrev pub collected :
      Result (Option RawPosting) → Result (List RawPosting) → Result (List RawPosting)
  collected (err e) rest = err e
  collected (ok none) rest = rest
  collected (ok (some posting)) (err e) = err e
  collected (ok (some posting)) (ok postings) = ok (posting ∷ postings)

  -- the postings of the jobs that are readable, in their order
  unfoldable pub postings_of :
      (Value F → Result (Option RawPosting)) → Items F → Result (List RawPosting)
  postings_of to_posting nil = ok []
  postings_of to_posting (cons job jobs) =
      let rest = postings_of to_posting jobs in collected (to_posting job) rest

  -- `isinstance(jobs, list)`, or no postings
  abbrev pub jobs_of :
      (Value F → Result (Option RawPosting)) → Option (Value F) → Result (List RawPosting)
  jobs_of to_posting (some (array jobs)) = postings_of to_posting jobs
  jobs_of to_posting _ = ok []

  -- The body of `fetch` of a board whose answer is an object with its jobs.
  abbrev pub fetched_object :
      String → (Value F → Result (Option RawPosting)) → Result (Value F) → Result (List RawPosting)
  fetched_object label to_posting (err e) = err e
  fetched_object label to_posting (ok (object payload)) = jobs_of to_posting (get "jobs" payload)
  fetched_object label to_posting (ok _) =
      err (Exception.ats_error (label +++ " board returned an unexpected shape"))

  -- and of one whose answer is the list of its jobs
  abbrev pub fetched_list :
      String → (Value F → Result (Option RawPosting)) → Result (Value F) → Result (List RawPosting)
  fetched_list label to_posting (err e) = err e
  fetched_list label to_posting (ok (array jobs)) = postings_of to_posting jobs
  fetched_list label to_posting (ok _) =
      err (Exception.ats_error (label +++ " board returned an unexpected shape"))
