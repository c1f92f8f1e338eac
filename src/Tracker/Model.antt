-- ===== src/Tracker/Model.antt =====
-- The rows of app/models/__init__.py that the tracker works on, with their JSON columns, and a
-- session over them. A UUID is a number, `next_id` the next fresh one. Times of creation are left
-- out. `rows` is what a session sees, `saved` what the last commit wrote, and `queued` the analyses
-- whose run was handed to the background tasks.
use ai_career_os.Common.{ℕ, String, Bool, Option, List, map, ◌==◌, if◌then◌else◌, find?}
use ai_career_os.Common.Exec.{Result, ok, err, Exec}
use ai_career_os.Json.{Fields}
use ai_career_os.Radar.Model.{AnalysisStatus}

pub record ProfileRow (F : Type 0) : Type 0 where
  pub id : ℕ
  pub name : String
  pub headline : Option String
  pub resume_text : String
  pub structured_data : Option (Fields F)
  pub radar_target : Option String

pub record JobRow (F : Type 0) : Type 0 where
  pub id : ℕ
  pub title : String
  pub company : String
  pub description : String
  pub location : Option String
  pub url : Option String
  pub source : Option String
  pub raw_metadata : Option (Fields F)
  pub company_brief : Option (Fields F)
  pub application_status : String

pub record AnalysisRow (F : Type 0) : Type 0 where
  pub id : ℕ
  pub profile_id : ℕ
  pub job_id : ℕ
  pub status : AnalysisStatus
  pub result : Option (Fields F)
  pub error : Option String

pub record FeedbackRow (F : Type 0) : Type 0 where
  pub id : ℕ
  pub profile_id : ℕ
  pub job_id : Option ℕ
  pub match_analysis_id : Option ℕ
  pub event_type : String
  pub payload : Fields F

pub record MemoryRow : Type 0 where
  pub id : ℕ
  pub profile_id : ℕ
  pub category : String
  pub content : String
  pub memory_key : Option String
  pub source_feedback_ids : List String
  pub active : Bool

pub record Rows (F : Type 0) : Type 0 where
  pub profiles : List (ProfileRow F)
  pub jobs : List (JobRow F)
  pub analyses : List (AnalysisRow F)
  pub events : List (FeedbackRow F)
  pub memories : List MemoryRow
  pub next_id : ℕ

pub record Session (F : Type 0) : Type 0 where
  pub rows : Rows F
  pub saved : Rows F
  pub queued : List ℕ

module _ {A : Type 0} where
  -- `db.get(Model, id)`, for the column that is the key
  abbrev pub find_row : (A → ℕ) → ℕ → List A → Option A
  find_row key id rows = find? (λ row. key row == id) rows

  -- assignments to the row that the session holds under its key
  abbrev pub put_row : (A → ℕ) → A → List A → List A
  put_row key row rows = map (λ old. if key old == key row then row else old) rows

module _ {F : Type 0} where
  abbrev pub get_profile : ℕ → Session F → Option (ProfileRow F)
  get_profile id s = find_row (λ (row : ProfileRow F). row.id) id s.rows.profiles

  abbrev pub get_job : ℕ → Session F → Option (JobRow F)
  get_job id s = find_row (λ (row : JobRow F). row.id) id s.rows.jobs

  abbrev pub get_analysis : ℕ → Session F → Option (AnalysisRow F)
  get_analysis id s = find_row (λ (row : AnalysisRow F). row.id) id s.rows.analyses

  abbrev pub change : (Rows F → Rows F) → Session F → Session F
  change f s = record s { rows = f s.rows }

  abbrev pub put_job : JobRow F → Session F → Session F
  put_job job =
      change (λ rows. record rows { jobs = put_row (λ (row : JobRow F). row.id) job rows.jobs })

  abbrev pub put_analysis : AnalysisRow F → Session F → Session F
  put_analysis analysis = change (λ rows. record rows {
    analyses = put_row (λ (row : AnalysisRow F). row.id) analysis rows.analyses;
  })

  -- `db.commit()`
  abbrev pub commit : Session F → Session F
  commit s = record s { saved = s.rows }

-- What a call gives that may index the chunks of a resume in the session of its caller
-- (app/services/rag/indexing.py): its answer, and what a commit makes of the chunks. It writes them
-- with all else, or raises, where a flush of them has failed or fails. Their table is left out.
pub record Indexed (R : Type 0) : Type 0 where
  pub answer : Result R
  pub chunks : Result (Unit {0})

-- `db.commit()` after such a call
abbrev pub commit_chunks : {F : Type 0} → Result (Unit {0}) → Exec (Session F) (Unit {0})
commit_chunks (ok _) s = (ok tt, commit s)
commit_chunks (err e) s = (err e, record s { rows = s.saved })
