-- ===== src/JobUrl/Tracking.antt =====
-- `normalize_job_url` of app/services/job_url.py and the parameters that track where a link was
-- found.
use ai_career_os.Common.{
  String, ◌≡◌, refl, ap, sym, ◌∙◌, false, ◌||◌, Option, none, some, List, [], ◌∷◌, str_eq,
  if◌then◌else◌, map, filter, if_false,
}
use Prim.Native.String.{◌++◌ as ◌+++◌}
use ai_career_os.Common.Text.{strip, truthy, or_blank, str_or, join}
use ai_career_os.JobUrl.{
  UrlParts, Urllib, is_kept, kept_query, canonical, rstrip_slash, linkedin_job_id, normalize_raw,
  normalize_job_url,
}

-- The second query is the first with tracking parameters put in anywhere.
pub data Tracked (lib : Urllib) : List (String × String) → List (String × String) → Type 0 where
  done : Tracked lib [] []
  same :
      (pair : String × String) {ps qs : List (String × String)}
      → Tracked lib ps qs
      → Tracked lib (pair ∷ ps) (pair ∷ qs)
  put_in :
      (pair : String × String) {ps qs : List (String × String)}
      → is_kept lib pair ≡ false
      → Tracked lib ps qs
      → Tracked lib ps (pair ∷ qs)

filter-Tracked :
    (lib : Urllib) {ps qs : List (String × String)}
    → Tracked lib ps qs
    → filter (is_kept lib) ps ≡ filter (is_kept lib) qs
filter-Tracked lib done = refl
filter-Tracked lib (same pair t) =
    ap (λ rest. if is_kept lib pair then pair ∷ rest else rest) (filter-Tracked lib t)
filter-Tracked lib (put_in pair e t) = filter-Tracked lib t ∙ sym (if_false _ _ e)

-- the host as it is written
abbrev pub host_of : Urllib → Option String → String
host_of lib hostname = if truthy hostname then lib.lower (or_blank hostname) else ""

-- Two absolute links to a page: the same scheme and host up to case, the same path, and the query
-- of the second with tracking parameters put in.
pub record SamePage (lib : Urllib) (p q : UrlParts) : Type 0 where
  pub scheme : lib.lower p.scheme ≡ lib.lower q.scheme
  pub host : host_of lib p.hostname ≡ host_of lib q.hostname
  pub path : p.path ≡ q.path
  pub query : Tracked lib (lib.parse_qsl p.query) (lib.parse_qsl q.query)
  pub absolute : (str_eq p.scheme "" || str_eq p.netloc "") ≡ false
  pub absolute' : (str_eq q.scheme "" || str_eq q.netloc "") ≡ false

canonical-SamePage :
    (lib : Urllib) (p q : UrlParts) → SamePage lib p q → canonical lib p ≡ canonical lib q
unfolding canonical kept_query
canonical-SamePage lib p q h =
    ap
      (λ scheme.
        lib.urlunparse scheme (host_of lib p.hostname) (str_or (rstrip_slash p.path) "/")
          (kept_query lib (lib.parse_qsl p.query)))
      h.scheme
    ∙ ap
        (λ host.
          lib.urlunparse (lib.lower q.scheme) host (str_or (rstrip_slash p.path) "/")
            (kept_query lib (lib.parse_qsl p.query)))
        h.host
    ∙ ap
        (λ path.
          lib.urlunparse (lib.lower q.scheme) (host_of lib q.hostname)
            (str_or (rstrip_slash path) "/") (kept_query lib (lib.parse_qsl p.query)))
        h.path
    ∙ ap
        (λ pairs.
          lib.urlunparse (lib.lower q.scheme) (host_of lib q.hostname)
            (str_or (rstrip_slash q.path) "/") (query_of pairs))
        (filter-Tracked lib h.query)
  where
    query_of : List (String × String) → String
    query_of pairs = join "&" (map (λ pair. pair.0 +++ "=" +++ pair.1) pairs)

-- Two links, neither of them blank nor to a job on LinkedIn, both with a scheme and a host, that
-- have the same path and differ only in the case of scheme and host and in tracking parameters that
-- the second has on top, have the same normal form.
pub normalize_job_url-Tracked :
    (lib : Urllib) (a b : String)
    → str_eq (strip a) "" ≡ false
    → str_eq (strip b) "" ≡ false
    → linkedin_job_id lib (strip a) ≡ none
    → linkedin_job_id lib (strip b) ≡ none
    → SamePage lib (lib.urlparse (strip a)) (lib.urlparse (strip b))
    → normalize_job_url lib (some a) ≡ normalize_job_url lib (some b)
unfolding normalize_job_url normalize_raw
normalize_job_url-Tracked lib a b a_text b_text a_plain b_plain h =
    one a a_text a_plain h.absolute
    ∙ ap some (canonical-SamePage lib _ _ h)
    ∙ sym (one b b_text b_plain h.absolute')
  where
    one :
        (url : String)
        → str_eq (strip url) "" ≡ false
        → linkedin_job_id lib (strip url) ≡ none
        → (str_eq (lib.urlparse (strip url)).scheme ""
            || str_eq (lib.urlparse (strip url)).netloc "")
          ≡ false
        → normalize_job_url lib (some url) ≡ some (canonical lib (lib.urlparse (strip url)))
    one url text plain absolute =
        if_false _ _ text
        ∙ ap (λ (id : Option String). some (normalize_raw lib (strip url) id)) plain
        ∙ ap some (if_false _ _ absolute)
