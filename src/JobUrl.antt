-- ===== src/JobUrl.antt =====
-- app/services/job_url.py: the form of a job's URL that duplicates are found by. `urlparse`,
-- `parse_qsl` and `urlunparse` of urllib, `str.lower` and the digits of `\d` are parameters.
pub mod Tracking
mod Tests
use Prim.Native.Char.{Char, code}
use Prim.Native.String.{◌++◌ as ◌+++◌}
use ai_career_os.Common.{
  String, Bool, true, false, not, ◌&&◌, ◌||◌, Option, none, some, List, [], ◌∷◌, map, ◌==◌, str_eq,
  if◌then◌else◌, any, filter, is_empty,
}
use ai_career_os.Common.Text.{strip, after_prefix, join, str_or, truthy, or_blank}

pub record UrlParts : Type 0 where
  pub scheme : String
  pub netloc : String
  pub hostname : Option String
  pub path : String
  pub query : String

-- `keep_blank_values=True`; `urlunparse` of a scheme, a host, a path and a query, with no
-- parameters and no fragment
pub record Urllib : Type 0 where
  pub urlparse : String → UrlParts
  pub parse_qsl : String → List (String × String)
  pub urlunparse : String → String → String → String → String
  pub lower : String → String
  pub is_digit : Char → Bool

abbrev pub tracking_params : List String
tracking_params =
    "utm_source" ∷ "utm_medium" ∷ "utm_campaign" ∷ "utm_term" ∷ "utm_content" ∷ "ref" ∷ "refid"
    ∷ "trackingid" ∷ "src" ∷ "gh_src" ∷ "lever-source" ∷ []

-- `path.rstrip("/")`
unfoldable pub rstrip_slash : String → String
rstrip_slash String.[] = ""
rstrip_slash (String.◌∷◌ c s) =
    let rest = rstrip_slash s in if str_eq rest "" && code c == 47 then "" else String.◌∷◌ c rest

module _ (lib : Urllib) where
  open lib use {urlparse, parse_qsl, urlunparse, lower, is_digit}

  -- `\d+` at the front of a text
  unfoldable pub leading_digits : String → String
  leading_digits String.[] = ""
  leading_digits (String.◌∷◌ c s) =
      let rest = leading_digits s in if is_digit c then String.◌∷◌ c rest else ""

  abbrev pub digits_after : Option String → Option String
  digits_after none = none
  digits_after (some rest) =
      let digits = leading_digits rest in if str_eq digits "" then none else some digits

  -- `LINKEDIN_JOB_PATH.search(path)`, and its group
  unfoldable pub linkedin_path : String → Option String
  unfolding leading_digits
  linkedin_path String.[] = none
  linkedin_path (String.◌∷◌ c s) =
      let later = linkedin_path s in
      elim (digits_after (after_prefix "/jobs/view/" (String.◌∷◌ c s))) [
        | some digits ↦ some digits
        | none ↦ later
      ]

  unfoldable pub current_job : List (String × String) → Option String
  current_job [] = none
  current_job ((key, value) ∷ pairs) =
      let later = current_job pairs in
      if str_eq key "currentJobId" && not (str_eq value "") then some value else later

  unfoldable pub linkedin_job_id : String → Option String
  unfolding linkedin_path current_job
  linkedin_job_id url =
      let parsed = urlparse url in
      elim (linkedin_path parsed.path) [
        | some id ↦ some id
        | none ↦ current_job (parse_qsl parsed.query)
      ]

  -- `key.lower() not in TRACKING_PARAMS`
  abbrev pub is_kept : String × String → Bool
  is_kept pair = not (any (λ name. str_eq (lower pair.0) name) tracking_params)

  unfoldable pub kept_query : List (String × String) → String
  kept_query pairs = join "&" (map (λ pair. pair.0 +++ "=" +++ pair.1) (filter is_kept pairs))

  unfoldable pub canonical : UrlParts → String
  unfolding kept_query rstrip_slash
  canonical parsed =
      urlunparse (lower parsed.scheme)
        (if truthy parsed.hostname then lower (or_blank parsed.hostname) else "")
        (str_or (rstrip_slash parsed.path) "/") (kept_query (parse_qsl parsed.query))

  -- what follows the look for a LinkedIn job, whose id is not empty
  unfoldable pub normalize_raw : String → Option String → String
  unfolding canonical
  normalize_raw raw (some id) = "https://www.linkedin.com/jobs/view/" +++ id +++ "/"
  normalize_raw raw none =
      let parsed = urlparse raw in
      if str_eq parsed.scheme "" || str_eq parsed.netloc "" then raw else canonical parsed

  unfoldable pub normalize_job_url : Option String → Option String
  unfolding normalize_raw linkedin_job_id
  normalize_job_url none = none
  normalize_job_url (some url) =
      let raw = strip url in
      if str_eq raw "" then none else some (normalize_raw raw (linkedin_job_id raw))
