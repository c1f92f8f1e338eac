-- ===== src/Radar/Samples.antt =====
-- Concrete boards, clients, rows and databases, for the tests.
use ai_career_os.Common.{ℕ, zero, suc, String, Bool, true, false, none, some, List, [], ◌∷◌}
use ai_career_os.Common.Text.{Unicode}
use ai_career_os.Common.Exec.{Exception, ok, err}
use ai_career_os.Radar.Model.{
  RawPosting, Profile, Posting, PostingState, PostingScreenResult, WatchedCompany, CompanyStatus,
  WatchCriteria, RemotePreference, aware,
}
use ai_career_os.Radar.Database.{Database}
use ai_career_os.Radar.Triage.{ℤ, TriageLlm}
use ai_career_os.Radar.Screener.{ScreenLlm}
use ai_career_os.Radar.Poller.{PollEnv, PollTimes}

abbrev pub role : String → String → Bool → RawPosting
role id title remote = record {
  external_id = id;
  title = title;
  description = "Build and run services.";
  url = some "https://example.com/role";
  location = some "Berlin";
  remote_flag = remote;
  posted_at = none;
  raw_payload = [];
}

abbrev pub candidate : Profile
candidate = record {
  id = 1;
  name = "Ada";
  headline = some "Backend engineer";
  resume_text = "Ten years of Python.";
  radar_target = none;
}

abbrev pub board : List RawPosting
board =
    role "a" "Backend Engineer" false
    ∷ role "b" "Nurse" false
    ∷ role "c" "Platform Engineer" true
    ∷ []

-- names role 3 first, then 1, then 3 again, and two that are not there
abbrev pub picky : TriageLlm
picky n messages max_tokens = ok (ℤ.pos 3 ∷ ℤ.pos 1 ∷ ℤ.pos 3 ∷ ℤ.pos 9 ∷ ℤ.negsuc 0 ∷ [])

abbrev pub unreachable : TriageLlm
unreachable n messages max_tokens = err (Exception.llm_error "timeout")

abbrev pub ascii : Unicode
ascii = record { casefold = λ s. s; lower = λ s. s; fold_char = λ c. 0; is_word = λ c. true }

abbrev pub wanted : WatchCriteria
wanted = record {
  titles = "Engineer" ∷ [];
  locations = "Berlin" ∷ [];
  remote = RemotePreference.any;
  exclude = "Intern" ∷ [];
}

abbrev pub row : ℕ → String → ℕ → Posting
row id external_id seen = record {
  id = id;
  watched_company_id = 7;
  profile_id = 1;
  external_id = external_id;
  url = none;
  title = "Engineer";
  location = none;
  remote_flag = false;
  description = "Build and run services.";
  posted_at = none;
  raw_payload = none;
  screen_score = none;
  screen_reason = none;
  state = PostingState.new;
  job_id = none;
  first_seen_at = seen;
  last_seen_at = seen;
}

abbrev pub rows : List Posting
rows = row 1 "a" 10 ∷ row 2 "b" 20 ∷ row 3 "c" 30 ∷ []

-- the second call fails
abbrev pub flaky : ScreenLlm
flaky (suc zero) messages max_tokens = err (Exception.llm_error "timeout")
flaky zero messages max_tokens = ok (record { fit_score = 90; reason = "fits" })
flaky (suc (suc n)) messages max_tokens = ok (record { fit_score = 80; reason = "fits" })

abbrev pub no_screening : ScreenLlm
no_screening n messages max_tokens = err (Exception.value_error "not JSON")

abbrev pub scored_80 : PostingScreenResult
scored_80 = record { fit_score = 80; reason = "fits" }

-- a claim that was left behind at the moment 100
abbrev pub watched : WatchedCompany
watched = record {
  id = 7;
  profile_id = 1;
  name = "Acme";
  ats_provider = "greenhouse";
  ats_token = "acme";
  board_url = none;
  criteria = none;
  status = CompanyStatus.active;
  last_polled_at = none;
  polling_started_at = some (aware 100);
  last_error = none;
  last_viewed_at = none;
}

-- of the three rows, the second was dismissed and the third has a score
abbrev pub stored_rows : List Posting
stored_rows =
    row 1 "a" 10
    ∷ record (row 2 "x" 20) { state = PostingState.dismissed }
    ∷ record (row 3 "y" 30) { state = PostingState.screened; screen_score = some 55 }
    ∷ []

abbrev pub tables : Database
tables = record {
  profiles = candidate ∷ [];
  companies = watched ∷ [];
  postings = stored_rows;
  jobs = [];
  analyses = [];
  radar_poll_interval = some "3d";
  next_id = 10;
}

abbrev pub poll_env : PollEnv
poll_env = record {
  unicode = ascii;
  stale_claim = 500;
  screen_limit = 20;
  posting_triage = "triage";
  posting_screen = "screen";
  fetch = λ provider token. ok board;
  validate_criteria = λ text. ok wanted;
  triage_client = ok picky;
  screen_client = ok flaky;
  row_locked = false;
  commit_after_failed_flush = err (Exception.other "PendingRollbackError");
}

-- a board with one new role twice, and no model
abbrev pub env_twice : PollEnv
env_twice = record poll_env {
  fetch =
      λ provider token. ok (role "n" "Data Engineer" false ∷ role "n" "Data Engineer" true ∷ []);
  triage_client = err (Exception.llm_configuration "no API key");
}

abbrev pub times : PollTimes
times = record { claimed = 1000; stored = 1001; finished = 1002 }
