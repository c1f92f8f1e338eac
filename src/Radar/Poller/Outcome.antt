-- ===== src/Radar/Poller/Outcome.antt =====
-- `poll_company` of app/services/radar/poller.py: the database that it leaves.
use ai_career_os.Common.{
  ℕ, ◌≡◌, refl, ap, sym, subst, arith, if◌then◌else◌, Bool-cases, inl, inr, ◌⊎◌, Option, none, some,
}
use ai_career_os.Common.Exec.{
  Exception, Result, ok, err, Exec, ◌>>=◌, ◌>>◌, >>=-ok, >>=-err, pure, Post,
}
use ai_career_os.Radar.Model.{WatchedCompany, Profile, PollResult, CompanyStatus, empty_result}
use ai_career_os.Radar.Database.{
  Database, Session, find_profile, find_company, update_company, change, commit, open_session,
}
use ai_career_os.Radar.Postings.Rows.{Evolved, Evolved-refl, IsTable}
use ai_career_os.Radar.Poller.{
  PollEnv, PollTimes, Poll, mark_claimed, is_live, claim_row, claim_company, poll_board, fail_with,
  handled, recover, finish_poll, poll_profile, poll_claimed, poll_company,
}
use ai_career_os.Radar.Poller.Invariant.{Inv, update_company-Inv, commit-Inv}
use ai_career_os.Radar.Poller.Board.{IsStorable, Good, poll_board-Post}

module _ {S A : Type 0} where
  pub run-cases :
      (out : Result A × S)
      → ((a : A) × (out ≡ (ok a, out.1))) ⊎ ((e : Exception) × (out ≡ (err e, out.1)))
  run-cases (ok a, s) = inl (a, refl)
  run-cases (err e, s) = inr (e, refl)

  pub state_of : {B : Type 0} (m : Exec S A) (b : B) (s : S) → ((m >>= λ _. pure b) s).1 ≡ (m s).1
  state_of {B} m b s = elim (run-cases (m s)) [
    | inl (a, e) ↦ ap (λ (out : Result B × S). out.1) (>>=-ok m (λ _. pure b) s e)
    | inr (x, e) ↦ ap (λ (out : Result B × S). out.1) (>>=-err m (λ _. pure b) s e)
  ]

pub open_session-Inv :
    {Clean : Type 0} (db : Database) → IsTable db → Inv db Clean (open_session db)
open_session-Inv db table = record {
  table = table;
  saved_table = table;
  evolved = Evolved-refl db.postings;
  saved_evolved = Evolved-refl db.postings;
  watched = refl;
  saved_watched = refl;
  sound = λ c. refl;
}

pub weaken-Inv :
    {base : Database} {C D : Type 0} {s : Session} → (D → C) → Inv base C s → Inv base D s
weaken-Inv f h = record {
  table = h.table;
  saved_table = h.saved_table;
  evolved = h.evolved;
  saved_evolved = h.saved_evolved;
  watched = h.watched;
  saved_watched = h.saved_watched;
  sound = λ d. h.sound (f d);
}

module _ (env : PollEnv) {base : Database} where
  -- a last change of a company, and the commit
  settle-Inv :
      {Clean A : Type 0} (id : ℕ) (f : WatchedCompany → WatchedCompany) (value : A) (s : Session)
      → ((c : WatchedCompany) → (f c).id ≡ c.id)
      → Inv base Clean s
      → Inv base Clean
          ((do commit env.commit_after_failed_flush; pure value) (change (update_company id f) s)).1
  settle-Inv {Clean} id f value s keeps h =
      subst (λ t. Inv base Clean t)
        (sym
          (state_of (commit env.commit_after_failed_flush) value (change (update_company id f) s)))
        (commit-Inv env.commit_after_failed_flush _ (update_company-Inv id f {s = s} keeps h))

  pub claim_row-Inv :
      {Clean : Type 0} (now id : ℕ) (company : Option WatchedCompany) (s : Session)
      → Inv base Clean s
      → Inv base Clean (claim_row env now id company s).1
  unfolding claim_row
  claim_row-Inv now id none s h = h
  claim_row-Inv now id (some company) s h =
      elim (Bool-cases (is_live env.stale_claim now company.polling_started_at)) [
        | inl live ↦ rw live h
        | inr old ↦
            rw old
              (settle-Inv id (mark_claimed now) (some (mark_claimed now company)) s (λ c. refl) h)
      ]

  module _ (times : PollTimes) where
    recover-Inv :
        (company : WatchedCompany) (profile : Profile) (limit : ℕ) (out : Result (Unit {0}) × Poll)
        → Post
            (λ _. Good env times company profile base limit)
            (Good env times company profile base limit)
            out
        → Inv base (IsStorable env company) (recover env company.id out).session
    unfolding recover fail_with
    recover-Inv company profile limit (ok _, p) h = h.0
    recover-Inv company profile limit (err e, p) h =
        update_company-Inv company.id
          (λ c. record c { status = (handled env e).0; last_error = some (handled env e).1 })
          (λ c. refl) h.0

    pub recovered-Inv :
        (company : WatchedCompany) (profile : Profile) (s : Session)
        → Inv base (IsStorable env company) s
        → Inv base
            (IsStorable env company)
            (recover env company.id (
              poll_board env times company profile
                (record { session = s; result = empty_result company.id; calls = 0 }))).session
    recovered-Inv company profile s h =
        recover-Inv company profile _ _
          (poll_board-Post env times company profile base _ (h, omega arith))

    poll_profile-Inv :
        (company : WatchedCompany) (profile : Option Profile) (s : Session)
        → Inv base (IsStorable env company) s
        → Inv base (IsStorable env company) (poll_profile env times company profile s).1
    unfolding poll_profile finish_poll
    poll_profile-Inv company none s h =
        settle-Inv company.id
          (λ c. record c {
            status = CompanyStatus.error;
            last_error = some "Profile not found";
            polling_started_at = none;
          })
          _ s (λ c. refl) h
    poll_profile-Inv company (some profile) s h =
        settle-Inv company.id
          (λ c. record c { last_polled_at = some times.finished; polling_started_at = none }) _ _
          (λ c. refl) (recovered-Inv company profile s h)

    poll_claimed-Inv :
        (id : ℕ) (company : Option WatchedCompany) (s : Session)
        → Inv base Unit s
        → Inv base ⊥ (poll_claimed env times id company s).1
    unfolding poll_claimed
    poll_claimed-Inv id none s h = weaken-Inv (λ e. tt) h
    poll_claimed-Inv id (some company) s h =
        weaken-Inv (λ e. absurd e)
          (poll_profile-Inv company (find_profile company.profile_id s.rows) s
            (weaken-Inv (λ _. tt) h))

-- On a database in order, whatever the board, the models and the profile are, and also where the
-- poll raises: the database that it leaves has its constraints, and every row of the postings is
-- where it was, with its job and its state, score and reason, save for rows that were `new` and now
-- are screened; rows that are added have no job.
pub poll_company-keeps :
    (env : PollEnv) (times : PollTimes) (company_id : ℕ) (db : Database)
    → IsTable db
    → let s' = (poll_company env times company_id (open_session db)).1 in
      Evolved db.postings s'.saved.postings × IsTable s'.saved
unfolding poll_company claim_company
poll_company-keeps env times company_id db table = (ends.saved_evolved, ends.saved_table)
  where
    row : Option WatchedCompany
    row = if env.row_locked then none else find_company company_id db

    claimed : Result (Option WatchedCompany) × Session
    claimed = claim_row env times.claimed company_id row (open_session db)

    claimed-Inv : Inv db Unit claimed.1
    claimed-Inv =
        claim_row-Inv env times.claimed company_id row (open_session db) (open_session-Inv db table)

    ends : Inv db ⊥ (poll_company env times company_id (open_session db)).1
    ends = elim (run-cases claimed) [
      | inl (company, e) ↦
          subst (λ (out : Result PollResult × Session). Inv db ⊥ out.1)
            (sym (
              >>=-ok (claim_company env times.claimed company_id)
                (poll_claimed env times company_id) (open_session db) e))
            (poll_claimed-Inv env times company_id company claimed.1 claimed-Inv)
      | inr (x, e) ↦
          subst (λ (out : Result PollResult × Session). Inv db ⊥ out.1)
            (sym (
              >>=-err (claim_company env times.claimed company_id)
                (poll_claimed env times company_id) (open_session db) e))
            (weaken-Inv (λ e. tt) claimed-Inv)
    ]
