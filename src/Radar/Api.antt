-- ===== src/Radar/Api.antt =====
-- app/api/radar.py: the handlers that change companies and postings, on the session of the request.
-- The dependencies `get_watched_company_or_404` and `get_posting_or_404` run first; a handler takes
-- the row that they give. `db.refresh` reads the row again, and the schemas of the answers are left
-- out, so a handler returns the row.
pub mod Target
pub mod Watch
pub mod Feed
use ai_career_os.Common.{
  ℕ, ◌+◌, ◌-◌, String, Bool, true, false, not, ◌&&◌, ◌||◌, Option, none, some, List, [], ◌∷◌, map,
  ◌==◌, str_eq, if◌then◌else◌, any, filter, find?, length,
}
use ai_career_os.Common.Text.{strip, or_blank, non_blank}
use ai_career_os.Common.Exec.{Exception, Result, ok, err, Exec, ◌>>=◌, ◌>>◌, pure, modify, gets}
use ai_career_os.Radar.Model.{
  Posting, PostingState, Profile, WatchedCompany, CompanyStatus, Job, is_new, is_screened,
  is_active,
}
use ai_career_os.Radar.Database.{Database, Session, find_company, update_company, change, commit}
use ai_career_os.Radar.Promote.{PromoteEnv, promote_posting}

pub get_watched_company_or_404 : Profile → ℕ → Database → Result WatchedCompany
get_watched_company_or_404 profile company_id db = elim (find_company company_id db) [
  | none ↦ err (Exception.http_exception 404 "Watched company not found")
  | some company ↦
      if company.profile_id == profile.id
      then ok company
      else err (Exception.http_exception 404 "Watched company not found")
]

pub get_posting_or_404 : Profile → ℕ → Database → Result Posting
get_posting_or_404 profile posting_id db = elim (find? (λ row. row.id == posting_id) db.postings) [
  | none ↦ err (Exception.http_exception 404 "Posting not found")
  | some posting ↦
      if posting.profile_id == profile.id
      then ok posting
      else err (Exception.http_exception 404 "Posting not found")
]

-- `WatchedCompanyUpdate`; `criteria` is the text of the dump.
pub record WatchedCompanyUpdate : Type 0 where
  pub name : Option String
  pub criteria : Option String
  pub status : Option CompanyStatus

-- the assignments under `if body.x is not None`
abbrev pub set_name : Option String → WatchedCompany → WatchedCompany
set_name none company = company
set_name (some name) company = record company { name = name }

abbrev pub set_criteria : Option String → WatchedCompany → WatchedCompany
set_criteria none company = company
set_criteria (some criteria) company = record company { criteria = some criteria }

abbrev pub set_status : Option CompanyStatus → WatchedCompany → WatchedCompany
set_status none company = company
set_status (some status) company = record company {
  status = status;
  last_error = if is_active status then none else company.last_error;
}

abbrev pub apply_update : WatchedCompanyUpdate → WatchedCompany → WatchedCompany
apply_update body company =
    set_status body.status (set_criteria body.criteria (set_name body.name company))

-- `Posting.state.in_(("new", "screened"))`
abbrev pub is_open : Posting → Bool
is_open row = is_new row.state || is_screened row.state

abbrev pub is_cleared : ℕ → Posting → Bool
is_cleared profile_id row = row.profile_id == profile_id && is_open row

abbrev pub is_repolled : ℕ → WatchedCompany → Bool
is_repolled profile_id company = company.profile_id == profile_id && is_active company.status

abbrev pub forget_poll : ℕ → WatchedCompany → WatchedCompany
forget_poll profile_id company =
    if is_repolled profile_id company then record company { last_polled_at = none } else company

-- `profile.radar_target = target` on the row
abbrev pub set_target : ℕ → Option String → Profile → Profile
set_target profile_id target row =
    if row.id == profile_id then record row { radar_target = target } else row

pub record RadarTargetRead : Type 0 where
  pub radar_target : Option String
  pub cleared_postings : ℕ
  pub repolled_companies : ℕ

-- the changes of the tables, before the commit
unfoldable pub retarget : Profile → Option String → Database → Database
retarget profile target db = record db {
  profiles = map (set_target profile.id target) db.profiles;
  postings = filter (λ row. not (is_cleared profile.id row)) db.postings;
  companies = map (forget_poll profile.id) db.companies;
}

module _ (commit_after_failed_flush : Result (Unit {0})) where
  pub update_watched_company : WatchedCompanyUpdate → WatchedCompany → Exec Session WatchedCompany
  update_watched_company body company = do
    modify (change (update_company company.id (apply_update body)))
    commit commit_after_failed_flush
    pure (apply_update body company)

  -- the delete cascades to the postings of the company
  pub remove_watched_company : WatchedCompany → Exec Session (Unit {0})
  remove_watched_company company = do
    modify (
        change (λ db. record db {
          companies = filter (λ row. not (row.id == company.id)) db.companies;
          postings = filter (λ row. not (row.watched_company_id == company.id)) db.postings;
        }))
    commit commit_after_failed_flush

  pub mark_company_viewed : ℕ → WatchedCompany → Exec Session WatchedCompany
  mark_company_viewed now company = do
    modify (change (update_company company.id (λ row. record row { last_viewed_at = some now })))
    commit commit_after_failed_flush
    pure (record company { last_viewed_at = some now })

  unfoldable pub dismiss_posting : Posting → Exec Session Posting
  dismiss_posting posting = do
    modify (
        change (λ db. record db {
          postings =
              map
                (λ row.
                  if row.id == posting.id
                  then record row { state = PostingState.dismissed }
                  else row)
                db.postings;
        }))
    commit commit_after_failed_flush
    pure (record posting { state = PostingState.dismissed })

  -- The polls that it spawns run on sessions of their own, after the commit.
  unfoldable pub set_radar_target : Option String → Profile → Exec Session RadarTargetRead
  unfolding retarget
  set_radar_target target profile s =
      let wanted = non_blank (strip (or_blank target)) in
      (do
        commit commit_after_failed_flush
        pure (record {
          radar_target = wanted;
          cleared_postings = length (filter (is_cleared profile.id) s.rows.postings);
          repolled_companies = length (filter (is_repolled profile.id) s.rows.companies);
        }))
        (change (retarget profile wanted) s)

-- `except PostingAlreadyPromotedError`: status 409
abbrev pub as_conflict : Result (Job × ℕ) → Result Job
as_conflict (ok (job, analysis_id)) = ok job
as_conflict (err (Exception.already_promoted job_id)) =
    err (Exception.http_exception 409 "This posting is already in your pipeline")
as_conflict (err e) = err e

-- The analysis that it adds to the background tasks runs after the answer.
pub promote_posting_to_job : PromoteEnv → Posting → Profile → Exec Session Job
promote_posting_to_job env posting profile s =
    let (r, s') = promote_posting env posting profile s in (as_conflict r, s')
