-- ===== src/Radar/Promote.antt =====
-- app/services/radar/promote.py: a posting becomes a job. The structuring of a job's text, the
-- normal form of its URL and its screening card are those of app/services/job_structurer.py,
-- job_url.py and screening_card.py, and parameters here.
pub mod Once
use Prim.Native.String.{◌++◌ as ◌+++◌}
use ai_career_os.Common.{
  ℕ, ◌+◌, String, Bool, true, false, Option, none, some, List, [], ◌∷◌, ◌++◌, map, ◌==◌, str_eq,
  if◌then◌else◌, find?,
}
use ai_career_os.Common.Text.{truthy, or_blank, str_or}
use ai_career_os.Common.Exec.{
  Exception, Result, ok, err, Exec, ◌>>=◌, ◌>>◌, pure, raise, modify, gets,
}
use ai_career_os.Radar.Model.{
  Posting, PostingState, Profile, WatchedCompany, Job, MatchAnalysis, AnalysisStatus, Payload,
}
use ai_career_os.Radar.Database.{Database, Session, find_company, change, flush, commit}

-- What the extraction of a job gives, with the metadata that is stored.
pub record JobExtraction : Type 0 where
  pub title : String
  pub company : String
  pub location : Option String
  pub metadata : Payload

pub record PromoteEnv : Type 0 where
  pub structure_job : String → Result JobExtraction
  pub normalize_job_url : String → Option String
  pub attach_screening_card : Option Payload → Job → Payload
  pub commit_after_failed_flush : Result (Unit {0})

-- `a or b` on optional texts
abbrev pub first_of : Option String → Option String → Option String
first_of a b = if truthy a then a else b

-- `company.name if company else "Unknown"`, and the source of the job
abbrev pub company_name : Option WatchedCompany → String
company_name none = "Unknown"
company_name (some company) = company.name

abbrev pub job_source : Option WatchedCompany → String
job_source none = "radar"
job_source (some company) = "radar:" +++ company.ats_provider

-- `posting.job_id = id; posting.state = "promoted"` on the row
abbrev pub promoted : ℕ → Posting → Posting
promoted id row = record row { job_id = some id; state = PostingState.promoted }

abbrev pub promote_row : ℕ → ℕ → Posting → Posting
promote_row posting_id id row = if row.id == posting_id then promoted id row else row

unfoldable pub mark_promoted : ℕ → ℕ → Database → Database
mark_promoted posting_id id db = record db {
  postings = map (promote_row posting_id id) db.postings;
}

-- `select(Job).where(Job.url == normalized_url).limit(1)`, if there is a URL
unfoldable pub find_job_by_url : Option String → Database → Option Job
find_job_by_url none db = none
find_job_by_url (some url) db =
    if str_eq url ""
    then none
    else find? (λ job. elim job.url [ none ↦ false | some u ↦ str_eq u url ]) db.jobs

module _ (env : PromoteEnv) where
  unfoldable pub normalized_url : Posting → Option String
  normalized_url posting =
      if truthy posting.url then env.normalize_job_url (or_blank posting.url) else none

  -- the row that is added, before and after the screening card is attached
  unfoldable pub new_job : Posting → Option WatchedCompany → JobExtraction → ℕ → Job
  unfolding normalized_url
  new_job posting company extraction id = record {
    id = id;
    title = str_or extraction.title posting.title;
    company = str_or extraction.company (company_name company);
    description = posting.description;
    location = first_of extraction.location posting.location;
    url = normalized_url posting;
    source = some (job_source company);
    raw_metadata = some extraction.metadata;
    application_status = "saved";
  }

  unfoldable pub with_card : Job → Job
  with_card job = record job {
    raw_metadata = some (env.attach_screening_card job.raw_metadata job);
  }

  -- `db.add(job)`, and the analysis
  abbrev pub add_job : Job → Database → Database
  add_job job db = record db { jobs = db.jobs ++ job ∷ []; next_id = db.next_id + 1 }

  abbrev pub new_analysis : Profile → ℕ → ℕ → MatchAnalysis
  new_analysis profile job_id id = record {
    id = id;
    profile_id = profile.id;
    job_id = job_id;
    status = AnalysisStatus.pending;
    result = none;
    error = none;
  }

  abbrev pub add_analysis : Profile → ℕ → Database → Database
  add_analysis profile job_id db = record db {
    analyses = db.analyses ++ new_analysis profile job_id db.next_id ∷ [];
    next_id = db.next_id + 1;
  }

  -- what follows `structure_job`
  unfoldable pub store_job : Posting → Profile → Job → ℕ → Exec Session (Job × ℕ)
  unfolding mark_promoted
  store_job posting profile job analysis_id = do
    modify (change (add_job job))
    flush
    modify (change (add_analysis profile job.id))
    flush
    modify (change (mark_promoted posting.id job.id))
    commit env.commit_after_failed_flush
    pure (job, analysis_id)

  -- what follows the answer of `structure_job`; the card is on the row from the start, where the
  -- source puts it on the row after the first flush
  unfoldable pub promote_extracted :
      Posting → Profile → Result JobExtraction → Exec Session (Job × ℕ)
  unfolding store_job new_job with_card
  promote_extracted posting profile (err e) s = (err e, s)
  promote_extracted posting profile (ok extraction) s =
      store_job posting profile
        (with_card (
          new_job posting (find_company posting.watched_company_id s.rows) extraction
            s.rows.next_id))
        (s.rows.next_id + 1) s

  -- what follows the look-up of the URL
  unfoldable pub promote_to : Posting → Profile → Option Job → Exec Session (Job × ℕ)
  unfolding promote_extracted mark_promoted
  promote_to posting profile (some found) s =
      (do commit env.commit_after_failed_flush; raise (Exception.already_promoted found.id))
        (change (mark_promoted posting.id found.id) s)
  promote_to posting profile none s =
      promote_extracted posting profile (env.structure_job posting.description) s

  unfoldable pub promote_unlinked : Posting → Profile → Option ℕ → Exec Session (Job × ℕ)
  unfolding promote_to find_job_by_url normalized_url
  promote_unlinked posting profile (some job_id) s = (err (Exception.already_promoted job_id), s)
  promote_unlinked posting profile none s =
      promote_to posting profile (find_job_by_url (normalized_url posting) s.rows) s

  unfoldable pub promote_posting : Posting → Profile → Exec Session (Job × ℕ)
  unfolding promote_unlinked
  promote_posting posting profile = promote_unlinked posting profile posting.job_id
