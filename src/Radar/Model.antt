-- ===== src/Radar/Model.antt =====
-- The rows and schemas that Radar works on: app/models/__init__.py, app/schemas/radar.py and
-- app/services/radar/sources/base.py. A UUID is a number, and a moment is a number of microseconds.
-- A JSON value that Radar stores and does not look into is its text.
use ai_career_os.Common.{ℕ, String, Bool, true, false, Option, none, List, []}

pub data CompanyStatus : Type 0 where
  active paused unresolved error : CompanyStatus

pub data PostingState : Type 0 where
  new screened promoted dismissed : PostingState

pub data RemotePreference : Type 0 where
  any remote onsite hybrid : RemotePreference

pub record WatchCriteria : Type 0 where
  pub titles : List String
  pub locations : List String
  pub remote : RemotePreference
  pub exclude : List String

abbrev pub default_criteria : WatchCriteria
default_criteria = record {
  titles = [];
  locations = [];
  remote = RemotePreference.any;
  exclude = [];
}

-- a column `DateTime(timezone=True)`, which a driver may hand back without its zone
pub data Moment : Type 0 where
  aware naive : ℕ → Moment

-- `if claimed_at.tzinfo is None: claimed_at = claimed_at.replace(tzinfo=UTC)`
abbrev pub as_utc : Moment → ℕ
as_utc (aware t) = t
as_utc (naive t) = t

-- a JSON object: its keys, each with the text of its value
abbrev pub Payload : Type 0
Payload = List (String × String)

pub record Profile : Type 0 where
  pub id : ℕ
  pub name : String
  pub headline : Option String
  pub resume_text : String
  pub radar_target : Option String

-- One role as the ATS advertises it.
pub record RawPosting : Type 0 where
  pub external_id : String
  pub title : String
  pub description : String
  pub url : Option String
  pub location : Option String
  pub remote_flag : Bool
  pub posted_at : Option ℕ
  pub raw_payload : Payload

-- `criteria` is the JSON text of the column.
pub record WatchedCompany : Type 0 where
  pub id : ℕ
  pub profile_id : ℕ
  pub name : String
  pub ats_provider : String
  pub ats_token : String
  pub board_url : Option String
  pub criteria : Option String
  pub status : CompanyStatus
  pub last_polled_at : Option ℕ
  pub polling_started_at : Option Moment
  pub last_error : Option String
  pub last_viewed_at : Option ℕ

pub record Posting : Type 0 where
  pub id : ℕ
  pub watched_company_id : ℕ
  pub profile_id : ℕ
  pub external_id : String
  pub url : Option String
  pub title : String
  pub location : Option String
  pub remote_flag : Bool
  pub description : String
  pub posted_at : Option ℕ
  pub raw_payload : Option Payload
  pub screen_score : Option ℕ
  pub screen_reason : Option String
  pub state : PostingState
  pub job_id : Option ℕ
  pub first_seen_at : ℕ
  pub last_seen_at : ℕ

pub data AnalysisStatus : Type 0 where
  pending completed failed : AnalysisStatus

-- `raw_metadata` and `result` are JSON objects.
pub record Job : Type 0 where
  pub id : ℕ
  pub title : String
  pub company : String
  pub description : String
  pub location : Option String
  pub url : Option String
  pub source : Option String
  pub raw_metadata : Option Payload
  pub application_status : String

pub record MatchAnalysis : Type 0 where
  pub id : ℕ
  pub profile_id : ℕ
  pub job_id : ℕ
  pub status : AnalysisStatus
  pub result : Option Payload
  pub error : Option String

abbrev pub is_new : PostingState → Bool
is_new PostingState.new = true
is_new _ = false

abbrev pub is_screened : PostingState → Bool
is_screened PostingState.screened = true
is_screened _ = false

abbrev pub is_active : CompanyStatus → Bool
is_active CompanyStatus.active = true
is_active _ = false

pub record PostingScreenResult : Type 0 where
  pub fit_score : ℕ
  pub reason : String

pub record PollResult : Type 0 where
  pub watched_company_id : ℕ
  pub fetched : ℕ
  pub dropped_by_triage : ℕ
  pub new_postings : ℕ
  pub screened : ℕ
  pub error : Option String

-- the defaults of the schema
abbrev pub empty_result : ℕ → PollResult
empty_result company_id = record {
  watched_company_id = company_id;
  fetched = 0;
  dropped_by_triage = 0;
  new_postings = 0;
  screened = 0;
  error = none;
}

pub data Role : Type 0 where
  system user : Role

pub record Message : Type 0 where
  pub role : Role
  pub content : String
