-- ===== src/JobUrl/Tests.antt =====
-- Links with and without tracking parameters, with a small parser in place of urllib's.
use Prim.Native.String.{◌++◌ as ◌+++◌}
use ai_career_os.Common.{String, ◌≡◌, refl, false, none, some, [], ◌∷◌, str_eq, if◌then◌else◌}
use ai_career_os.Common.Text.{strip, after_prefix}
use ai_career_os.JobUrl.{Urllib, linkedin_job_id, linkedin_path, current_job, normalize_job_url}
use ai_career_os.JobUrl.Tracking.{done, same, put_in, normalize_job_url-Tracked}

abbrev plain_link : String
plain_link = "https://example.com/jobs/7?team=a"

abbrev tracked_link : String
tracked_link = "https://example.com/jobs/7?team=a&utm_source=mail"

-- it knows the query of the second link, and takes any other for that of the first
abbrev small_lib : Urllib
small_lib = record {
  urlparse = λ url. record {
    scheme = "https";
    netloc = "example.com";
    hostname = some "example.com";
    path = "/jobs/7";
    query = if str_eq url tracked_link then "team=a&utm_source=mail" else "team=a";
  };
  parse_qsl = λ query.
      if str_eq query "team=a&utm_source=mail"
      then ("team", "a") ∷ ("utm_source", "mail") ∷ []
      else ("team", "a") ∷ [];
  urlunparse = λ scheme host path query. scheme +++ "://" +++ host +++ path +++ "?" +++ query;
  lower = λ s. s;
  is_digit = λ c. false;
}

plain_is_plain : linkedin_job_id small_lib (strip plain_link) ≡ none
unfolding linkedin_job_id linkedin_path current_job after_prefix strip
plain_is_plain = refl

tracked_is_plain : linkedin_job_id small_lib (strip tracked_link) ≡ none
unfolding linkedin_job_id linkedin_path current_job after_prefix strip
tracked_is_plain = refl

normalize_job_url-Tracked_example :
    normalize_job_url small_lib (some plain_link) ≡ normalize_job_url small_lib (some tracked_link)
normalize_job_url-Tracked_example =
    normalize_job_url-Tracked small_lib plain_link tracked_link (unfold strip in refl)
      (unfold strip in refl) plain_is_plain tracked_is_plain
      (unfold strip in
        (record {
          scheme = refl;
          host = refl;
          path = refl;
          query = same ("team", "a") (put_in ("utm_source", "mail") refl done);
          absolute = refl;
          absolute' = refl;
        }))
