-- ===== src/Radar/ApiTests.antt =====
-- The scheduler, promotion, the target, the companies and the feed of a profile, on a concrete
-- database.
use ai_career_os.Common.{
  ◌==◌, ◌↔◌, ◌||◌, any, List, map, take, ◌+◌, ◌≤◌, ◌≡◌, refl, true, false, not, ◌&&◌, none, some,
  [], ◌∷◌, ◌++◌, length, filter, member, All, count_if,
}
use ai_career_os.Common.Text.{str_len, strip, or_blank, non_blank}
use ai_career_os.Common.Exec.{Exception, already_promoted, ok, err}
use ai_career_os.Radar.Model.{Posting, Job}
use ai_career_os.Radar.Database.{
  Database, fits_columns, find_profile, IsReady, open_session, find_company, unique_keys,
}
use ai_career_os.Radar.Postings.Rows.{find_row}
use ai_career_os.Radar.Due.{Waits, WantsPoll, due_company_ids, due_company_ids-WantsPoll}
use ai_career_os.Radar.Promote.{
  PromoteEnv, JobExtraction, promoted, find_job_by_url, normalized_url, new_job, with_card,
  new_analysis, promote_posting,
}
use ai_career_os.Radar.Promote.Once.{promote_posting-once, promote_posting-linked}
use ai_career_os.Radar.Api.{is_cleared, is_repolled, set_radar_target}
use ai_career_os.Radar.Api.Target.{set_radar_target-effect}
use mathlib.Core.List.{Permᴰ}
use ai_career_os.Radar.Model.{PostingState}
use ai_career_os.Radar.Api.Watch.{
  WatchedCompanyCreate, unique_boards, new_company, insert_company, already_watched,
  add_watched_company, renamed, add_watched_company-once,
}
use ai_career_os.Radar.Api.Feed.{
  PostingQuery, PostingRead, list_postings, matching, list_watched_companies,
}
use ai_career_os.Radar.Api.Feed.Ranking.{IsAnswer, IsRanked, list_postings-IsRanked}
use ai_career_os.Radar.Api.Feed.Counts.{with_counts, list_watched_companies-counts}
use ai_career_os.Radar.Samples.{candidate, watched, row, tables}

tables-IsReady : IsReady (open_session tables)
tables-IsReady = record {
  unique = unfold unique_keys in refl;
  fits = unfold fits_columns str_len in refl;
  sound = refl;
}

due_company_ids-WantsPoll_example :
    (member 7 (due_company_ids 5000 tables) ≡ true) ↔ WantsPoll 5000 259_200_000_000 watched
due_company_ids-WantsPoll_example =
    due_company_ids-WantsPoll 5000 7 259_200_000_000 tables {company = watched} refl refl
      Waits.three_days

abbrev extraction : JobExtraction
extraction = record {
  title = "Senior Engineer";
  company = "Acme";
  location = none;
  metadata = ("requirements", "[]") ∷ [];
}

abbrev promote_env : PromoteEnv
promote_env = record {
  structure_job = λ text. ok extraction;
  normalize_job_url = λ url. some url;
  attach_screening_card = λ metadata job. ("screening_card", job.title) ∷ [];
  commit_after_failed_flush = err (Exception.other "PendingRollbackError");
}

fresh_url : find_job_by_url (normalized_url promote_env (row 1 "a" 10)) tables ≡ none
unfolding find_job_by_url normalized_url
fresh_url = refl

abbrev first_job : Job
first_job =
    with_card promote_env (new_job promote_env (row 1 "a" 10) (find_company 7 tables) extraction 10)

promote_posting-once_example :
    let (r, s') = promote_posting promote_env (row 1 "a" 10) candidate (open_session tables) in
    (r ≡ ok (first_job, 10 + 1))
    × (s'.saved.jobs ≡ [] ++ first_job ∷ [])
    × (s'.saved.analyses ≡ [] ++ new_analysis promote_env candidate first_job.id (10 + 1) ∷ [])
    × (find_row 1 s'.saved.postings ≡ some (promoted first_job.id (row 1 "a" 10)))
    × (promote_posting promote_env (promoted first_job.id (row 1 "a" 10)) candidate s'
        ≡ (err (already_promoted first_job.id), s'))
promote_posting-once_example =
    promote_posting-once promote_env candidate (open_session tables) tables-IsReady (row 1 "a" 10)
      {extraction = extraction} refl refl fresh_url refl

-- a posting with the URL of a job that is there
abbrev known_row : Posting
known_row = record (row 1 "a" 10) { url = some "https://example.com/a" }

abbrev known_job : Job
known_job = record {
  id = 5;
  title = "Engineer";
  company = "Acme";
  description = "Build and run services.";
  location = none;
  url = some "https://example.com/a";
  source = none;
  raw_metadata = none;
  application_status = "saved";
}

abbrev with_job : Database
with_job = record tables { postings = known_row ∷ []; jobs = known_job ∷ [] }

known_url : find_job_by_url (normalized_url promote_env known_row) with_job ≡ some known_job
unfolding find_job_by_url normalized_url
known_url = refl

promote_posting-linked_example :
    let (r, s') = promote_posting promote_env known_row candidate (open_session with_job) in
    (r ≡ err (already_promoted 5))
    × (s'.saved.jobs ≡ known_job ∷ [])
    × (s'.saved.analyses ≡ [])
    × (find_row 1 s'.saved.postings ≡ some (promoted 5 known_row))
promote_posting-linked_example =
    promote_posting-linked promote_env candidate (open_session with_job)
      (record {
        unique = unfold unique_keys in refl;
        fits = unfold fits_columns str_len in refl;
        sound = refl;
      })
      known_row {found = known_job} refl refl known_url

set_radar_target-effect_example :
    let (answer, s') =
      set_radar_target (ok tt) (some " Staff roles ") candidate (open_session tables) in
    let wanted = non_blank (strip (or_blank (some " Staff roles "))) in
    (answer
      ≡ ok (record {
        radar_target = wanted;
        cleared_postings = count_if (is_cleared 1) tables.postings;
        repolled_companies = count_if (is_repolled 1) tables.companies;
      }))
    × (find_profile 1 s'.saved ≡ some (record candidate { radar_target = wanted }))
    × All (λ p. is_cleared 1 p ≡ false) s'.saved.postings
    × (count_if (λ p. true && not (is_cleared 1 p)) s'.saved.postings
        ≡ count_if (λ p. true && not (is_cleared 1 p)) tables.postings)
    × (member 7 (due_company_ids 5000 s'.saved) ≡ (
        any (λ c. c.id == 7 && is_repolled 1 c) tables.companies
        || member 7 (due_company_ids 5000 tables)))
set_radar_target-effect_example =
    set_radar_target-effect (ok tt) (some " Staff roles ") candidate (open_session tables) 7 5000
      (λ p. true) {row = candidate} tables-IsReady refl

abbrev lever_board : WatchedCompanyCreate
lever_board = record {
  name = "Acme Lever";
  ats_provider = "lever";
  ats_token = "acme";
  board_url = none;
  criteria = "{}";
}

tables_unique : unique_keys tables.postings ≡ true
unfolding unique_keys
tables_unique = refl

boards_unique : unique_boards tables.companies ≡ true
unfolding unique_boards
boards_unique = refl

add_watched_company-once_example :
    let company = new_company lever_board candidate tables.next_id in
    let s = open_session (insert_company company tables) in
    (add_watched_company
        (err (Exception.other "PendingRollbackError"))
        lever_board
        candidate
        (open_session tables)
      ≡ (ok company, s))
    × (unique_boards s.saved.companies ≡ true)
    × (add_watched_company
          (err (Exception.other "PendingRollbackError"))
          (renamed lever_board "Acme" none "{}")
          candidate
          s
        ≡ (err (already_watched (renamed lever_board "Acme" none "{}")), s))
add_watched_company-once_example =
    add_watched_company-once (err (Exception.other "PendingRollbackError")) lever_board candidate
      tables "Acme" none "{}" tables_unique tables-IsReady.fits boards_unique refl

abbrev best_only : PostingQuery
best_only = record { state = none; min_score = none; company_id = some 7; limit = 1 }

-- the row with a score is the first
listed_run :
    list_postings best_only candidate tables
    ≡ record {
      posting = record (row 3 "y" 30) { state = PostingState.screened; screen_score = some 55 };
      company_name = "Acme";
    }
      ∷ []
unfolding list_postings take
listed_run = refl

list_postings-IsRanked_example :
    (length (list_postings best_only candidate tables) ≤ 1)
    × All (IsAnswer best_only candidate tables) (list_postings best_only candidate tables)
    × ((left_out : List PostingRead) × IsRanked
          (list_postings best_only candidate tables ++ left_out)
        × Permᴰ
            (list_postings best_only candidate tables ++ left_out)
            (matching best_only candidate tables))
list_postings-IsRanked_example = list_postings-IsRanked best_only candidate tables

counts_run :
    list_watched_companies (λ companies. companies) candidate tables
    ≡ record { company = watched; posting_count = 3; new_posting_count = 2 } ∷ []
unfolding list_watched_companies
counts_run = refl

list_watched_companies-counts_example :
    list_watched_companies (λ companies. companies) candidate tables
    ≡ map
        (with_counts candidate tables)
        (filter (λ company. company.profile_id == candidate.id) tables.companies)
list_watched_companies-counts_example =
    list_watched_companies-counts (λ companies. companies) candidate tables
