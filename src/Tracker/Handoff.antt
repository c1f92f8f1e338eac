-- ===== src/Tracker/Handoff.antt =====
-- Short-lived handoffs of a job from the browser extension: app/services/job_intake_handoff.py, and
-- their handlers in app/api/jobs.py. A moment is a number of microseconds; each reading of the clock
-- is an argument, and so is the id that `uuid4()` gives. The store is the sequence of its entries.
pub mod Live
mod Entries
pub mod Refines
use ai_career_os.Common.{
  ℕ, ◌+◌, String, Bool, true, false, not, Option, none, some, List, [], ◌∷◌, ltb, ◌==◌, filter,
  find?, if◌then◌else◌,
}
use ai_career_os.Common.Exec.{Exception, Result, ok, err, Exec}
use ai_career_os.Radar.Promote.{JobExtraction}

pub record JobIntakeHandoff : Type 0 where
  pub id : ℕ
  pub job_text : String
  pub structured_data : JobExtraction
  pub url : Option String
  pub source : Option String
  pub created_at : ℕ

abbrev pub Store : Type 0
Store = List JobIntakeHandoff

-- 30 minutes
abbrev pub handoff_ttl : ℕ
handoff_ttl = 1800000000

-- `entry.created_at < cutoff`, of `_purge_expired`
abbrev pub is_expired : ℕ → JobIntakeHandoff → Bool
is_expired now entry = ltb (entry.created_at + handoff_ttl) now

abbrev pub purge_expired : ℕ → Store → Store
purge_expired now store = filter (λ entry. not (is_expired now entry)) store

-- `_store[handoff.id] = handoff`
unfoldable pub set_entry : JobIntakeHandoff → Store → Store
set_entry handoff [] = handoff ∷ []
set_entry handoff (entry ∷ rest) =
    let later = set_entry handoff rest in
    if entry.id == handoff.id then handoff ∷ rest else entry ∷ later

abbrev pub get_entry : ℕ → Store → Option JobIntakeHandoff
get_entry id store = find? (λ entry. entry.id == id) store

-- `_store.pop(handoff_id, None)`
abbrev pub pop_entry : ℕ → Store → Store
pop_entry id store = filter (λ entry. not (entry.id == id)) store

-- `purged_at` and `handoff.created_at` are the two times that it reads.
unfoldable pub create_handoff : ℕ → JobIntakeHandoff → Store → JobIntakeHandoff × Store
unfolding set_entry
create_handoff purged_at handoff store =
    (handoff, set_entry handoff (purge_expired purged_at store))

-- `entry.created_at < datetime.now(UTC) - HANDOFF_TTL`, of `get_handoff`
abbrev pub is_too_old : ℕ → JobIntakeHandoff → Bool
is_too_old now entry = ltb (entry.created_at + handoff_ttl) now

abbrev pub answer_of : ℕ → ℕ → Option JobIntakeHandoff → Store → Option JobIntakeHandoff × Store
answer_of now id none store = (none, store)
answer_of now id (some entry) store =
    if is_too_old now entry then (none, pop_entry id store) else (some entry, store)

unfoldable pub get_handoff : ℕ → ℕ → ℕ → Store → Option JobIntakeHandoff × Store
get_handoff purged_at now id store =
    let left = purge_expired purged_at store in answer_of now id (get_entry id left) left

abbrev pub or_gone : Option JobIntakeHandoff × Store → Result JobIntakeHandoff × Store
or_gone (none, store) =
    (err (Exception.http_exception 404 "Intake handoff not found or expired"), store)
or_gone (some handoff, store) = (ok handoff, store)

unfoldable pub read_job_intake_handoff : ℕ → ℕ → ℕ → Exec Store JobIntakeHandoff
unfolding get_handoff
read_job_intake_handoff purged_at now id store = or_gone (get_handoff purged_at now id store)
