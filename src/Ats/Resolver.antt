-- ===== src/Ats/Resolver.antt =====
-- app/services/radar/resolver.py: the board of a company, from its URL, from names that its board
-- may have, or from a web search. The sources are those of app/services/radar/sources/factory.py, or
-- any others. Regular expressions, `str.casefold`, `str.split` and `str.title` are parameters.
pub mod Slugs
pub mod Found
use Prim.Native.String.{◌++◌ as ◌+++◌}
use ai_career_os.Common.{
  ℕ, zero, suc, String, Bool, true, false, not, ◌&&◌, ◌||◌, Option, none, some, List, [], ◌∷◌, ◌++◌,
  str_eq, if◌then◌else◌, any, length, take,
}
use ai_career_os.Common.Text.{strip, after_prefix, is_some}
use ai_career_os.Common.Exec.{Exception, Result, ok, err}
use ai_career_os.Radar.Model.{RawPosting}
use ai_career_os.Search.{SearchResult}
use ai_career_os.Ats.{AtsEnv, AtsSource, is_ats_error}
use ai_career_os.Ats.Greenhouse.{greenhouse}
use ai_career_os.Ats.Lever.{lever}
use ai_career_os.Ats.Ashby.{ashby}

-- `all_sources()`: the most common first
abbrev pub all_sources : {F : Type 0} → AtsEnv F → List AtsSource
all_sources env = greenhouse env ∷ lever env ∷ ashby env ∷ []

pub record ResolverEnv : Type 0 where
  pub sources : List AtsSource
  -- `_LEGAL_SUFFIXES.sub(" ", s)`, and `_NON_SLUG.sub(replacement, s)`
  pub drop_suffixes : String → String
  pub sub_non_slug : String → String → String
  -- `s.strip("-")`
  pub strip_dashes : String → String
  -- `re.match(r"^[a-z0-9.-]+\.[a-z]{2,}(/|$)", s, re.I)`
  pub is_host : String → Bool
  pub casefold : String → String
  pub split : String → List String
  -- `token.replace("-", " ").replace("_", " ").title()`
  pub display_name : String → String
  -- the web search, whose client may be missing
  pub web_search : String → ℕ → Result (List SearchResult)

pub data ResolvedVia : Type 0 where
  url probe search : ResolvedVia

pub record ResolvedBoard : Type 0 where
  pub name : String
  pub ats_provider : String
  pub ats_token : String
  pub board_url : String
  pub open_role_count : ℕ
  pub resolved_via : ResolvedVia

abbrev pub max_slug_candidates : ℕ
max_slug_candidates = 3

abbrev pub max_search_results : ℕ
max_search_results = 8

-- `if candidate and candidate not in candidates: candidates.append(candidate)`
abbrev pub add_candidate : List String → String → List String
add_candidate candidates candidate =
    if not (str_eq candidate "") && not (any (λ c. str_eq candidate c) candidates)
    then candidates ++ (candidate ∷ [])
    else candidates

-- a token that is found and not empty
abbrev pub found_token : Option String → Option String
found_token none = none
found_token (some token) = if str_eq token "" then none else some token

abbrev pub first_match :
    AtsSource → Option String → Option (AtsSource × String) → Option (AtsSource × String)
first_match source none later = later
first_match source (some token) later = some (source, token)

unfoldable pub board_from : List AtsSource → String → Option (AtsSource × String)
board_from [] link = none
board_from (source ∷ sources) link =
    first_match source (found_token (source.matches_url link)) (board_from sources link)

-- `_safe_probe`
abbrev pub safe_probe : Result Bool → Bool
safe_probe (ok found) = found
safe_probe (err e) = false

-- `_open_role_count`
abbrev pub open_role_count : Result (List RawPosting) → Result (Option ℕ)
open_role_count (ok postings) = ok (some (length postings))
open_role_count (err e) = if is_ats_error e then ok none else err e

abbrev pub board_of : String → AtsSource → String → ResolvedVia → ℕ → ResolvedBoard
board_of name source token via count = record {
  name = name;
  ats_provider = source.provider;
  ats_token = token;
  board_url = source.board_url token;
  open_role_count = count;
  resolved_via = via;
}

-- `if not count: continue`, and the board otherwise
abbrev pub unless_empty :
    String
    → AtsSource
    → String
    → ResolvedVia
    → Result (Option ℕ)
    → Result (Option ResolvedBoard)
    → Result (Option ResolvedBoard)
unless_empty name source token via (err e) later = err e
unless_empty name source token via (ok none) later = later
unless_empty name source token via (ok (some zero)) later = later
unless_empty name source token via (ok (some (suc n))) later =
    ok (some (board_of name source token via (suc n)))

-- `if resolved: return resolved`, and what comes next otherwise
abbrev pub or_next :
    Result (Option ResolvedBoard) → Result (Option ResolvedBoard) → Result (Option ResolvedBoard)
or_next (err e) later = err e
or_next (ok none) later = later
or_next (ok (some board)) later = ok (some board)

module _ (env : ResolverEnv) where
  open env use {
    sources, drop_suffixes, sub_non_slug, strip_dashes, is_host, casefold, split, display_name,
    web_search,
  }

  unfoldable pub looks_like_url : String → Bool
  unfolding strip after_prefix
  looks_like_url query =
      let text = strip query in
      is_some (after_prefix "http://" text)
      || is_some (after_prefix "https://" text)
      || is_host text

  -- the first word, if there is one
  abbrev pub add_head : List String → List String → List String
  add_head candidates [] = candidates
  add_head candidates (word ∷ words) = add_candidate candidates (sub_non_slug "" word)

  unfoldable pub slug_candidates : String → List String
  unfolding strip take
  slug_candidates name =
      let cleaned = drop_suffixes (casefold (strip name)) in
      let compact = sub_non_slug "" cleaned in
      let hyphenated = strip_dashes (sub_non_slug "-" cleaned) in
      take max_slug_candidates
        (add_head (add_candidate (add_candidate [] compact) hyphenated) (split cleaned))

  abbrev pub via_url : AtsSource → String → Result (Option ℕ) → Result (Option ResolvedBoard)
  via_url source token (err e) = err e
  via_url source token (ok none) = ok none
  via_url source token (ok (some count)) =
      ok (some (board_of (display_name token) source token ResolvedVia.url count))

  abbrev pub resolve_match : Option (AtsSource × String) → Result (Option ResolvedBoard)
  resolve_match none = ok none
  resolve_match (some (source, token)) = via_url source token (open_role_count (source.fetch token))

  unfoldable pub resolve_from_url : String → Result (Option ResolvedBoard)
  unfolding board_from
  resolve_from_url link = resolve_match (board_from sources link)

  -- the sources that have the token
  unfoldable pub probe_sources :
      String
      → String
      → List AtsSource
      → Result (Option ResolvedBoard)
      → Result (Option ResolvedBoard)
  probe_sources name token [] later = later
  probe_sources name token (source ∷ rest) later =
      let next = probe_sources name token rest later in
      if not (safe_probe (source.probe token))
      then next
      else unless_empty (strip name) source token ResolvedVia.probe
          (open_role_count (source.fetch token)) next

  unfoldable pub probe_tokens : String → List String → Result (Option ResolvedBoard)
  unfolding probe_sources
  probe_tokens name [] = ok none
  probe_tokens name (token ∷ tokens) = probe_sources name token sources (probe_tokens name tokens)

  unfoldable pub resolve_by_probe : String → Result (Option ResolvedBoard)
  unfolding probe_tokens slug_candidates
  resolve_by_probe name = probe_tokens name (slug_candidates name)

  abbrev pub result_board :
      String
      → Option (AtsSource × String)
      → Result (Option ResolvedBoard)
      → Result (Option ResolvedBoard)
  result_board name none later = later
  result_board name (some (source, token)) later =
      unless_empty (strip name) source token ResolvedVia.search
        (open_role_count (source.fetch token)) later

  unfoldable pub search_results : String → List SearchResult → Result (Option ResolvedBoard)
  unfolding board_from
  search_results name [] = ok none
  search_results name (result ∷ results) =
      result_board name (board_from sources result.url) (search_results name results)

  -- `except SearchError: return None`
  abbrev pub searched : String → Result (List SearchResult) → Result (Option ResolvedBoard)
  searched name (ok results) = search_results name results
  searched name (err (Exception.search_error m)) = ok none
  searched name (err e) = err e

  unfoldable pub resolve_by_search : String → Result (Option ResolvedBoard)
  unfolding search_results
  resolve_by_search name =
      searched name (
        web_search ("\"" +++ name +++ "\" careers greenhouse OR lever OR ashby") max_search_results)

  -- `BoardNotFoundError` of this file, which the handler turns into a 404
  abbrev pub or_not_found_board : String → Result (Option ResolvedBoard) → Result ResolvedBoard
  or_not_found_board query (err e) = err e
  or_not_found_board query (ok (some board)) = ok board
  or_not_found_board query (ok none) = err (
      Exception.other (
        "Couldn't find a Greenhouse, Lever, or Ashby board for “" +++ query
        +++ "”. Paste the careers page URL instead."))

  unfoldable pub resolve_board : String → Result ResolvedBoard
  unfolding resolve_from_url resolve_by_probe resolve_by_search looks_like_url strip
  resolve_board query =
      let text = strip query in
      if str_eq text ""
      then err (Exception.other "Enter a company name or a careers page URL.")
      else or_not_found_board text (
          or_next (if looks_like_url text then resolve_from_url text else ok none)
            (or_next (resolve_by_probe text) (resolve_by_search text)))
