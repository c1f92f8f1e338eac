-- ===== src/Radar/Database.antt =====
-- The tables that Radar reads and writes (app/models/__init__.py), and a session over them
-- (app/db/session.py). A table is the list of its rows. A query is a test on rows, an assignment to
-- a row that the session holds is a change of the row with its id, and a new row is appended.
use ai_career_os.Common.{
  ℕ, String, Bool, true, false, not, ◌&&◌, Option, List, [], ◌∷◌, map, ◌==◌, str_eq, ◌≡◌, refl, ◌∙◌,
  if_true, if_false, if◌then◌else◌, any, all, find?, none, some, leb,
}
use ai_career_os.Common.Text.{str_len}
use ai_career_os.Common.Exec.{Exception, Result, ok, err, Exec, >>=-ok, ◌>>◌, modify}
use ai_career_os.Radar.Model.{Profile, WatchedCompany, Posting, Job, MatchAnalysis}

-- `next_id` is the next fresh UUID. `radar_poll_interval` is the column of the settings row, if
-- there is one.
pub record Database : Type 0 where
  pub profiles : List Profile
  pub companies : List WatchedCompany
  pub postings : List Posting
  pub jobs : List Job
  pub analyses : List MatchAnalysis
  pub radar_poll_interval : Option String
  pub next_id : ℕ

abbrev pub find_profile : ℕ → Database → Option Profile
find_profile id db = find? (λ row. row.id == id) db.profiles

abbrev pub find_company : ℕ → Database → Option WatchedCompany
find_company id db = find? (λ row. row.id == id) db.companies

-- the row with the id, changed
unfoldable pub update_row : ℕ → (WatchedCompany → WatchedCompany) → WatchedCompany → WatchedCompany
update_row id change row = if row.id == id then change row else row

pub update_row_hit :
    (id : ℕ) (f : WatchedCompany → WatchedCompany) (row : WatchedCompany)
    → (row.id == id) ≡ true
    → update_row id f row ≡ f row
unfolding update_row
update_row_hit id f row h = rw h

pub update_row_miss :
    (id : ℕ) (f : WatchedCompany → WatchedCompany) (row : WatchedCompany)
    → (row.id == id) ≡ false
    → update_row id f row ≡ row
unfolding update_row
update_row_miss id f row h = rw h

unfoldable pub update_company : ℕ → (WatchedCompany → WatchedCompany) → Database → Database
unfolding update_row
update_company id change db = record db { companies = map (update_row id change) db.companies }

-- `uq_postings_company_external_id`
abbrev pub same_key : Posting → Posting → Bool
same_key p q = p.watched_company_id == q.watched_company_id && str_eq p.external_id q.external_id

unfoldable pub unique_keys : List Posting → Bool
unique_keys [] = true
unique_keys (p ∷ ps) = not (any (same_key p) ps) && unique_keys ps

-- `rows` is what the session sees, and `saved` what the last commit wrote. A failed flush rolls
-- the session back, and it is then in need of a rollback() of its own.
pub record Session : Type 0 where
  pub rows : Database
  pub saved : Database
  pub needs_rollback : Bool

abbrev pub open_session : Database → Session
open_session db = record { rows = db; saved = db; needs_rollback = false }

-- A change of the rows that the session holds.
abbrev pub change : (Database → Database) → Session → Session
change f s = record s { rows = f s.rows }

-- `String(width)`
abbrev pub fits_width : ℕ → String → Bool
fits_width width text = leb (str_len text) width

abbrev pub fits_optional : ℕ → Option String → Bool
fits_optional width none = true
fits_optional width (some text) = fits_width width text

-- the columns of the postings that a board fills and whose width is bounded
unfoldable pub fits_columns : Posting → Bool
unfolding str_len
fits_columns row =
    fits_width 255 row.external_id
    && fits_optional 2048 row.url
    && fits_width 500 row.title
    && fits_optional 255 row.location

-- a flush that fails
abbrev pub flush_failed : Exception → Session → Result (Unit {0}) × Session
flush_failed e s = (err e, record s { rows = s.saved; needs_rollback = true })

abbrev pub data_error : Exception
data_error = Exception.other "DataError"

-- `db.flush()`, which raises DataError if a text is too wide for its column, and IntegrityError if
-- the unique key of the postings is violated.
unfoldable pub flush : Exec Session (Unit {0})
unfolding unique_keys fits_columns
flush s =
    if all fits_columns s.rows.postings
    then if unique_keys s.rows.postings
      then (ok tt, s)
      else flush_failed (Exception.integrity_error "uq_postings_company_external_id") s
    else flush_failed data_error s

-- What `commit()` answers on a session whose flush has failed is SQLAlchemy's, and a parameter.
unfoldable pub commit : Result (Unit {0}) → Exec Session (Unit {0})
unfolding flush
commit after_failed_flush s =
    if s.needs_rollback
    then elim after_failed_flush [
      | ok _ ↦ (ok tt, record s { saved = s.rows; needs_rollback = false })
      | err e ↦ (err e, s)
    ]
    else (do flush; modify (λ s'. record s' { saved = s'.rows })) s

-- A session that the next commit will save.
pub record IsReady (s : Session) : Type 0 where
  pub unique : unique_keys s.rows.postings ≡ true
  pub fits : all fits_columns s.rows.postings ≡ true
  pub sound : s.needs_rollback ≡ false

pub flush-ready : (s : Session) → IsReady s → flush s ≡ (ok tt, s)
unfolding flush
flush-ready s h = if_true _ _ h.fits ∙ if_true _ _ h.unique

pub commit-ready :
    (after_failed_flush : Result (Unit {0})) (s : Session)
    → IsReady s
    → commit after_failed_flush s ≡ (ok tt, record s { saved = s.rows })
unfolding commit
commit-ready r s h =
    if_false _ _ h.sound
    ∙ >>=-ok flush (λ _. modify (λ (s' : Session). record s' { saved = s'.rows })) s
        (flush-ready s h)

pub postings-update_company :
    (id : ℕ) (f : WatchedCompany → WatchedCompany) (db : Database)
    → (update_company id f db).postings ≡ db.postings
unfolding update_company
postings-update_company id f db = refl

pub update_company-IsReady :
    (id : ℕ) (f : WatchedCompany → WatchedCompany) {s : Session}
    → IsReady s
    → IsReady (change (update_company id f) s)
unfolding update_company
update_company-IsReady id f h = record { unique = h.unique; fits = h.fits; sound = h.sound }
