-- ===== src/Radar/Api/Watch.antt =====
-- `add_watched_company` and `poll_watched_company` of app/api/radar.py, the first over the unique key of the watched companies
-- (app/models/__init__.py). A foreign key is not checked, and the poll that the handler spawns runs
-- on a session of its own.
use Prim.Native.String.{◌++◌ as ◌+++◌}
use ai_career_os.Common.{
  ℕ, ◌+◌, ◌≡◌, refl, ap, ◌∙◌, String, Bool, true, false, ◌&&◌, ◌||◌, Option, none, some, List, [],
  ◌∷◌, ◌++◌, ◌==◌, str_eq, if◌then◌else◌, any, all, if_true, if_false, no_two, no_two-last,
  no_two-related, any-append-last, eq_refl, arith,
}
use ai_career_os.Common.Exec.{Exception, Result, ok, err, Exec}
use ai_career_os.Radar.Model.{Profile, WatchedCompany, CompanyStatus, PollResult}
use ai_career_os.Radar.Poller.{PollEnv, PollTimes, poll_company}
use ai_career_os.Radar.Database.{
  Database, Session, IsReady, fits_columns, open_session, unique_keys, change, commit, commit-ready,
}

-- `criteria` is the text of the dump
pub record WatchedCompanyCreate : Type 0 where
  pub name : String
  pub ats_provider : String
  pub ats_token : String
  pub board_url : Option String
  pub criteria : String

-- `uq_watched_companies_profile_board`
abbrev pub same_board : WatchedCompany → WatchedCompany → Bool
same_board p q =
    p.profile_id == q.profile_id
    && str_eq p.ats_provider q.ats_provider
    && str_eq p.ats_token q.ats_token

unfoldable pub unique_boards : List WatchedCompany → Bool
unique_boards companies = no_two same_board companies

abbrev pub new_company : WatchedCompanyCreate → Profile → ℕ → WatchedCompany
new_company body profile id = record {
  id = id;
  profile_id = profile.id;
  name = body.name;
  ats_provider = body.ats_provider;
  ats_token = body.ats_token;
  board_url = body.board_url;
  criteria = some body.criteria;
  status = CompanyStatus.active;
  last_polled_at = none;
  polling_started_at = none;
  last_error = none;
  last_viewed_at = none;
}

-- `db.add(company)`
abbrev pub insert_company : WatchedCompany → Database → Database
insert_company company db = record db {
  companies = db.companies ++ (company ∷ []);
  next_id = db.next_id + 1;
}

abbrev pub rollback : Session → Session
rollback s = record s { rows = s.saved; needs_rollback = false }

-- `f"{body.name} is already on your radar"`
abbrev pub already_watched : WatchedCompanyCreate → Exception
already_watched body = Exception.http_exception 409 (body.name +++ " is already on your radar")

-- `except IntegrityError`
abbrev pub or_conflict :
    WatchedCompanyCreate
    → WatchedCompany
    → Result (Unit {0}) × Session
    → Result WatchedCompany × Session
or_conflict body company (ok _, s) = (ok company, s)
or_conflict body company (err (Exception.integrity_error m), s) =
    (err (already_watched body), rollback s)
or_conflict body company (err e, s) = (err e, s)

module _ (commit_after_failed_flush : Result (Unit {0})) where
  -- a commit whose flush also checks the unique key of the companies
  unfoldable pub commit_companies : Exec Session (Unit {0})
  unfolding unique_boards
  commit_companies s =
      if s.needs_rollback || unique_boards s.rows.companies
      then commit commit_after_failed_flush s
      else (
        err (Exception.integrity_error "uq_watched_companies_profile_board"),
        record s { rows = s.saved; needs_rollback = true },
      )

  unfoldable pub add_watched_company : WatchedCompanyCreate → Profile → Exec Session WatchedCompany
  unfolding commit_companies
  add_watched_company body profile s =
      let company = new_company body profile s.rows.next_id in
      or_conflict body company (commit_companies (change (insert_company company) s))

unfoldable pub poll_watched_company : PollEnv → PollTimes → WatchedCompany → Exec Session PollResult
unfolding poll_company
poll_watched_company env times company = poll_company env times company.id

-- the board is one that the profile watches
abbrev pub is_watched : WatchedCompany → Database → Bool
is_watched company db = any (λ row. same_board row company) db.companies

module _ (commit_after_failed_flush : Result (Unit {0})) (body : WatchedCompanyCreate)
    (profile : Profile) (db : Database) where
  abbrev company : WatchedCompany
  company = new_company body profile db.next_id

  inserted-IsReady :
      unique_keys db.postings ≡ true
      → all fits_columns db.postings ≡ true
      → IsReady (change (insert_company company) (open_session db))
  inserted-IsReady h f = record { unique = h; fits = f; sound = refl }

  commit_companies_unique :
      unique_keys db.postings ≡ true
      → all fits_columns db.postings ≡ true
      → unique_boards (db.companies ++ (company ∷ [])) ≡ true
      → commit_companies commit_after_failed_flush
          (change (insert_company company) (open_session db))
        ≡ (ok tt, open_session (insert_company company db))
  unfolding commit_companies
  commit_companies_unique h f k =
      if_true _ _ k ∙ commit-ready commit_after_failed_flush _ (inserted-IsReady h f)

  commit_companies-taken :
      unique_boards (db.companies ++ (company ∷ [])) ≡ false
      → commit_companies commit_after_failed_flush
          (change (insert_company company) (open_session db))
        ≡ (
          err (Exception.integrity_error "uq_watched_companies_profile_board"),
          record (open_session db) { needs_rollback = true },
        )
  unfolding commit_companies
  commit_companies-taken k = if_false _ _ k

  pub add_watched_company-fresh :
      unique_keys db.postings ≡ true
      → all fits_columns db.postings ≡ true
      → unique_boards db.companies ≡ true
      → is_watched company db ≡ false
      → (add_watched_company commit_after_failed_flush body profile (open_session db)
          ≡ (ok company, open_session (insert_company company db)))
        × (unique_boards (insert_company company db).companies ≡ true)
  unfolding add_watched_company unique_boards
  add_watched_company-fresh h f k fresh =
      let unique = no_two-last same_board db.companies company k fresh in
      (ap (or_conflict body company) (commit_companies_unique h f unique), unique)

  pub add_watched_company-again :
      is_watched company db ≡ true
      → add_watched_company commit_after_failed_flush body profile (open_session db)
        ≡ (err (already_watched body), open_session db)
  unfolding add_watched_company unique_boards
  add_watched_company-again taken =
      ap (or_conflict body company)
        (commit_companies-taken (no_two-related same_board db.companies company taken))

-- the same board, under another name and with other criteria
abbrev pub renamed : WatchedCompanyCreate → String → Option String → String → WatchedCompanyCreate
renamed body name url criteria = record body { name = name; board_url = url; criteria = criteria }

same_board-again :
    (body : WatchedCompanyCreate) (profile : Profile) (name : String) (url : Option String)
    (criteria : String) (i j : ℕ)
    → same_board
        (new_company body profile i)
        (new_company (renamed body name url criteria) profile j)
      ≡ true
same_board-again body profile name url criteria i j =
    ground (arith, eq_refl body.ats_provider, eq_refl body.ats_token)

-- If the postings fit their columns, the tables keep their unique keys and the profile does not watch the board yet, adding it saves
-- the new company and nothing else, and the companies keep their unique key; adding the board once
-- more, under any name, URL and criteria, is refused with status 409 and changes nothing.
pub add_watched_company-once :
    (commit_after_failed_flush : Result (Unit {0})) (body : WatchedCompanyCreate)
    (profile : Profile) (db : Database) (name : String) (url : Option String) (criteria : String)
    → unique_keys db.postings ≡ true
    → all fits_columns db.postings ≡ true
    → unique_boards db.companies ≡ true
    → is_watched (new_company body profile db.next_id) db ≡ false
    → let company = new_company body profile db.next_id in
      let s = open_session (insert_company company db) in
      (add_watched_company commit_after_failed_flush body profile (open_session db)
        ≡ (ok company, s))
      × (unique_boards s.saved.companies ≡ true)
      × (add_watched_company commit_after_failed_flush (renamed body name url criteria) profile s
          ≡ (err (already_watched (renamed body name url criteria)), s))
add_watched_company-once r body profile db name url criteria h f k fresh =
    let company = new_company body profile db.next_id in
    let other = new_company (renamed body name url criteria) profile (db.next_id + 1) in
    let (created, unique) = add_watched_company-fresh r body profile db h f k fresh in
    (
      created,
      unique,
      add_watched_company-again r (renamed body name url criteria) profile
          (insert_company company db)
          (any-append-last (λ row. same_board row other) db.companies company
            (same_board-again body profile name url criteria db.next_id (db.next_id + 1))),
    )
