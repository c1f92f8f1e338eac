-- ===== src/Tracker/JobsApi.antt =====
-- The handlers of app/api/jobs.py that create, find, list and change jobs, with the bodies of
-- app/schemas/api/models.py. The rest of the URL's look-up is in the JobUrl modules.
pub mod Unique
use ai_career_os.Common.{
  ℕ, suc, ◌+◌, String, Bool, true, false, not, ◌&&◌, Option, none, some, List, [], ◌∷◌, ◌++◌, ◌==◌,
  str_eq, if◌then◌else◌, find?, filter, any, is_empty,
}
use ai_career_os.Common.Text.{truthy, or_blank}
use ai_career_os.Common.Exec.{Exception, Result, ok, err, Exec}
use ai_career_os.Json.{Value, Fields}
use ai_career_os.Tracker.Model.{
  ProfileRow, JobRow, Session, Rows, get_profile, get_job, put_job, change, commit,
}
use ai_career_os.Tracker.Results.{Validated, valid, invalid}
use ai_career_os.Tracker.AnalysisApi.{add_analysis, enqueue, get_job_or_404}
use ai_career_os.Tracker.Cards.{attach_screening_card_to_metadata}

pub record JobCreate (F : Type 0) : Type 0 where
  pub title : String
  pub company : String
  pub description : String
  pub location : Option String
  pub url : Option String
  pub source : Option String
  pub raw_metadata : Option (Fields F)
  pub profile_id : Option ℕ

-- The fields that the body sets: `none` stands for one that it leaves out. An explicit null for the
-- title, the company or the description, which the columns refuse, is left out.
pub record JobUpdate (F : Type 0) : Type 0 where
  pub title : Option String
  pub company : Option String
  pub description : Option String
  pub location : Option (Option String)
  pub url : Option (Option String)
  pub source : Option (Option String)
  pub raw_metadata : Option (Option (Fields F))

-- What the handlers call: the normal form of a URL, `str` of a UUID, and `str` of a JSON value.
pub record JobsEnv (F : Type 0) : Type 0 where
  pub normalize_job_url : Option String → Option String
  pub uuid_str : ℕ → String
  pub str_other : Value F → String

-- the test of the query: a job without a URL is never found
abbrev pub has_url : String → Option String → Bool
has_url url none = false
has_url url (some u) = str_eq u url

module _ {F : Type 0} where
  abbrev pub job_with : String → List (JobRow F) → Option (JobRow F)
  job_with url jobs = find? (λ job. has_url url job.url) jobs

  -- `.where(Job.application_status.in_(statuses))`, if there are any; the order is left out
  abbrev pub list_jobs : List String → Session F → List (JobRow F)
  list_jobs statuses s =
      if is_empty statuses
      then s.rows.jobs
      else filter (λ job. any (λ status. str_eq job.application_status status) statuses) s.rows.jobs

  abbrev pub created_job : ℕ → JobCreate F → Option String → JobRow F
  created_job id body url = record {
    id = id;
    title = body.title;
    company = body.company;
    description = body.description;
    location = body.location;
    url = url;
    source = body.source;
    raw_metadata = body.raw_metadata;
    company_brief = none;
    application_status = "saved";
  }

  -- `db.add(job)`, with a fresh id, and `db.flush()`
  abbrev pub add_job_row : JobRow F → Session F → Session F
  add_job_row job =
      change (λ rows. record rows { jobs = rows.jobs ++ (job ∷ []); next_id = rows.next_id + 1 })

  abbrev pub with_metadata : Fields F → JobRow F → JobRow F
  with_metadata metadata job = record job { raw_metadata = some metadata }

  -- the analysis of a new job, for a profile that is there
  unfoldable pub add_pending :
      JobRow F → Option ℕ → Option (ProfileRow F) → Exec (Session F) (JobRow F × Option ℕ)
  unfolding add_analysis
  add_pending job none profile s = (ok (job, none), commit s)
  add_pending job (some profile_id) none s =
      (err (Exception.http_exception 404 "Profile not found"), s)
  add_pending job (some profile_id) (some profile) s = (
    ok (job, some s.rows.next_id),
    enqueue s.rows.next_id (commit (add_analysis profile_id job.id s)),
  )

  abbrev pub profile_of : Option ℕ → Session F → Option (ProfileRow F)
  profile_of none s = none
  profile_of (some id) s = get_profile id s

  -- The job stands last among the jobs, and its metadata is assigned.
  unfoldable pub insert_job :
      JobCreate F → JobRow F → Validated (Fields F) → Exec (Session F) (JobRow F × Option ℕ)
  unfolding add_pending
  insert_job body job (invalid m) s = (err (Exception.value_error m), add_job_row job s)
  insert_job body job (valid metadata) s =
      add_pending (with_metadata metadata job) body.profile_id (profile_of body.profile_id s)
        (add_job_row (with_metadata metadata job) s)

module _ {F : Type 0} (env : JobsEnv F) where
  open env use {normalize_job_url, uuid_str, str_other}

  -- `if not normalized: return None`
  abbrev pub job_by_normal : Option String → Session F → Option (JobRow F)
  job_by_normal normalized s =
      if truthy normalized then job_with (or_blank normalized) s.rows.jobs else none

  -- `_find_job_by_url`
  abbrev pub job_by_url : Option String → Session F → Option (JobRow F)
  job_by_url url s = job_by_normal (normalize_job_url url) s

  abbrev pub created :
      JobCreate F → Option String → Session F → Result (JobRow F × Option ℕ) × Session F
  created body url s =
      let job = created_job s.rows.next_id body url in
      insert_job body job
        (attach_screening_card_to_metadata str_other uuid_str job.raw_metadata job) s

  -- the look for a job with the URL, and what follows
  unfoldable pub create_new :
      JobCreate F → Option String → Option (JobRow F) → Exec (Session F) (JobRow F × Option ℕ)
  unfolding insert_job
  create_new body url (some existing) s =
      (err (Exception.http_exception 409 "A job with this URL is already in your pipeline"), s)
  create_new body url none s = created body url s

  -- The answer is the job and the id of its analysis, if it has one.
  unfoldable pub create_job : JobCreate F → Exec (Session F) (JobRow F × Option ℕ)
  unfolding create_new
  create_job body s =
      if truthy body.url
      then create_new body (normalize_job_url body.url) (job_by_url (normalize_job_url body.url) s)
          s
      else created body body.url s

  abbrev pub or_not_found : Option (JobRow F) → Exec (Session F) (JobRow F)
  or_not_found none s = (err (Exception.http_exception 404 "Job not found for this URL"), s)
  or_not_found (some job) s = (ok job, s)

  unfoldable pub get_job_by_url : String → Exec (Session F) (JobRow F)
  get_job_by_url url s = or_not_found (job_by_url (some url) s) s

  abbrev pub set_field : {A : Type 0} → A → Option A → A
  set_field old none = old
  set_field old (some new) = new

  -- the assignments of the fields that are set
  abbrev pub apply_job_update : JobUpdate F → JobRow F → JobRow F
  apply_job_update body job = record job {
    title = set_field job.title body.title;
    company = set_field job.company body.company;
    description = set_field job.description body.description;
    location = set_field job.location body.location;
    url = set_field job.url body.url;
    source = set_field job.source body.source;
    raw_metadata = set_field job.raw_metadata body.raw_metadata;
  }

  abbrev pub save_updated : JobRow F → Validated (Fields F) → Exec (Session F) (JobRow F)
  save_updated job (invalid m) s = (err (Exception.value_error m), put_job job s)
  save_updated job (valid metadata) s =
      (ok (with_metadata metadata job), commit (put_job (with_metadata metadata job) s))

  unfoldable pub update_job : JobUpdate F → JobRow F → Exec (Session F) (JobRow F)
  update_job body job =
      let updated = apply_job_update body job in
      save_updated updated
        (attach_screening_card_to_metadata str_other uuid_str updated.raw_metadata updated)
