-- ===== src/Radar/Poller.antt =====
-- app/services/radar/poller.py: one poll of one company, and which companies are due.
pub mod Claim
pub mod Invariant
pub mod Board
pub mod Outcome
pub mod Release
pub mod Duplicates
use ai_career_os.Common.{
  ℕ, zero, suc, ◌+◌, ◌-◌, ◌*◌, String, Bool, true, false, not, ◌&&◌, ◌||◌, Option, none, some, List,
  [], ◌∷◌, ◌++◌, map, ltb, leb, ◌==◌, str_eq, if◌then◌else◌, any, filter, find?, is_empty, length,
}
use ai_career_os.Common.Text.{Unicode, truthy}
use ai_career_os.Common.Exec.{
  Exception, message, is_llm_error, Result, ok, err, Exec, ◌>>=◌, ◌>>◌, pure, lift, gets, modify,
}
use ai_career_os.Radar.Model.{
  CompanyStatus, PostingState, Moment, as_utc, aware, WatchCriteria, default_criteria, Profile,
  RawPosting, WatchedCompany, Posting, PollResult, empty_result, is_new, is_active, Payload,
}
use ai_career_os.Radar.Triage.{TriageLlm, triage_postings}
use ai_career_os.Radar.Screener.{ScreenLlm, matches_criteria, screen_postings}
use ai_career_os.Radar.Postings.{
  is_fresh, is_unscreened, known_external_ids, mem_str, new_posting, of_company, oldest_first,
  refresh, refresh_row, store_item, store_items, store_postings, unscreened_postings, write_back,
  written_over,
}
use ai_career_os.Radar.Database.{
  Database, Session, find_profile, find_company, update_company, change, flush, commit,
}

-- What a poll takes from outside app/services/radar: the settings, the prompt files, the board as
-- `get_source(provider).fetch(token)` answers, pydantic's validation of the stored criteria, the
-- two calls of `get_llm_client`, whether another transaction holds the row when it is claimed, and
-- what `commit()` answers after a failed flush.
pub record PollEnv : Type 0 where
  pub unicode : Unicode
  pub stale_claim : ℕ
  pub screen_limit : ℕ
  pub posting_triage : String
  pub posting_screen : String
  pub fetch : String → String → Result (List RawPosting)
  pub validate_criteria : String → Result WatchCriteria
  pub triage_client : Result TriageLlm
  pub screen_client : Result ScreenLlm
  pub row_locked : Bool
  pub commit_after_failed_flush : Result (Unit {0})

-- The three readings of the clock.
pub record PollTimes : Type 0 where
  pub claimed : ℕ
  pub stored : ℕ
  pub finished : ℕ

unfoldable pub criteria_of : PollEnv → WatchedCompany → Result WatchCriteria
criteria_of env company =
    elim (env.validate_criteria (elim company.criteria [ none ↦ "{}" | some text ↦ text ])) [
      | ok criteria ↦ ok criteria
      | err (Exception.value_error m) ↦ ok default_criteria
      | err e ↦ err e
    ]

-- `claimed_at > stale_before`, with `stale_before = now - stale`
abbrev pub is_live : ℕ → ℕ → Option Moment → Bool
is_live stale now none = false
is_live stale now (some claimed_at) = ltb now (as_utc claimed_at + stale)

abbrev pub mark_claimed : ℕ → WatchedCompany → WatchedCompany
mark_claimed now company = record company { polling_started_at = some (aware now) }

-- `FOR UPDATE SKIP LOCKED` finds no row that another transaction holds.
unfoldable pub claim_row :
    PollEnv → ℕ → ℕ → Option WatchedCompany → Exec Session (Option WatchedCompany)
claim_row env now company_id none s = (ok none, s)
claim_row env now company_id (some company) s =
    if is_live env.stale_claim now company.polling_started_at
    then (ok none, s)
    else (do commit env.commit_after_failed_flush; pure (some (mark_claimed now company)))
        (change (update_company company_id (mark_claimed now)) s)

unfoldable pub claim_company : PollEnv → ℕ → ℕ → Exec Session (Option WatchedCompany)
unfolding claim_row
claim_company env now company_id s =
    claim_row env now company_id (if env.row_locked then none else find_company company_id s.rows) s

-- The state of the `try` block: the session, the result so far, and the calls of the model.
pub record Poll : Type 0 where
  pub session : Session
  pub result : PollResult
  pub calls : ℕ

abbrev pub report : (PollResult → PollResult) → Exec Poll (Unit {0})
report f = modify (λ p. record p { result = f p.result })

-- an action of the session, and one that counts calls
abbrev pub on_session : {A : Type 0} → Exec Session A → Exec Poll A
on_session m p = let (r, s) = m p.session in (r, record p { session = s })

abbrev pub on_calls : {A : Type 0} → Exec ℕ A → Exec Poll A
on_calls m p = let (r, n) = m p.calls in (r, record p { calls = n })

module _ (env : PollEnv) where
  -- `_triage`, given the client or why there is none
  unfoldable pub triage_with :
      Profile → List RawPosting → Result TriageLlm → Exec Poll (List RawPosting)
  triage_with profile unseen (ok llm) =
      on_calls (triage_postings env.posting_triage llm profile unseen)
  triage_with profile unseen (err e) = if is_llm_error e then pure unseen else lift (err e)

  unfoldable pub triage : Profile → List RawPosting → Exec Poll (List RawPosting)
  unfolding triage_with
  triage profile unseen = triage_with profile unseen env.triage_client

  -- `await _triage(db, profile, unseen) if unseen else []`
  unfoldable pub triage_unseen : Profile → List RawPosting → Exec Poll (List RawPosting)
  unfolding triage
  triage_unseen profile [] = pure []
  triage_unseen profile (item ∷ rest) = triage profile (item ∷ rest)

  unfoldable pub screened_by : ScreenLlm → Profile → List Posting → Exec Poll ℕ
  unfolding write_back
  screened_by llm profile pending p =
      let run = screen_postings env.posting_screen llm profile env.screen_limit pending p.calls in
      (
        run.result,
        record p { session = change (write_back run.postings) p.session; calls = run.calls },
      )

  -- `_screen`, given the client or why there is none
  unfoldable pub screen_with : Profile → List Posting → Result ScreenLlm → Exec Poll ℕ
  unfolding screened_by
  screen_with profile pending (ok llm) = screened_by llm profile pending
  screen_with profile pending (err e) = if is_llm_error e then pure 0 else lift (err e)

  unfoldable pub screen : Profile → List Posting → Exec Poll ℕ
  unfolding screen_with
  screen profile pending = screen_with profile pending env.screen_client

  -- `if pending: result.screened = await _screen(db, profile, pending)`
  unfoldable pub screen_pending : Profile → List Posting → Exec Poll (Unit {0})
  unfolding screen
  screen_pending profile [] = pure tt
  screen_pending profile (p ∷ rest) = do
    count ← screen profile (p ∷ rest)
    report (λ r. record r { screened = count })

  -- `company.status = "active"; company.last_error = None`
  abbrev pub mark_active : WatchedCompany → Exec Poll (Unit {0})
  mark_active company = modify (λ p. record p {
    session =
        change
          (update_company company.id
            (λ c. record c { status = CompanyStatus.active; last_error = none }))
          p.session;
  })

  -- The body of the `try` in `poll_company`, cut where a call answers. First what follows the
  -- storing of the roles,
  unfoldable pub poll_stored : WatchedCompany → Profile → ℕ → Exec Poll (Unit {0})
  unfolding screen_pending
  poll_stored company profile fresh = do
    report (λ r. record r { new_postings = fresh })
    on_session (commit env.commit_after_failed_flush)
    pending ← gets (λ p. unscreened_postings company.id p.session.rows)
    screen_pending profile pending
    mark_active company

  -- what follows the triage,
  unfoldable pub poll_triaged :
      PollTimes
      → WatchedCompany
      → Profile
      → List String
      → List RawPosting
      → List RawPosting
      → Exec Poll (Unit {0})
  unfolding poll_stored
  poll_triaged times company profile known eligible relevant = do
    let unseen = filter (is_fresh known) eligible
    report (λ r. record r { dropped_by_triage = length unseen - length relevant })
    fresh ← on_session (
        store_postings times.stored company
          (filter (λ item. mem_str item.external_id known) eligible ++ relevant))
    poll_stored company profile fresh

  -- what follows the free filter,
  unfoldable pub poll_eligible :
      PollTimes → WatchedCompany → Profile → List RawPosting → Exec Poll (Unit {0})
  unfolding triage_unseen poll_triaged
  poll_eligible times company profile eligible = do
    known ← gets (λ p. known_external_ids company.id p.session.rows)
    relevant ← triage_unseen profile (filter (is_fresh known) eligible)
    poll_triaged times company profile known eligible relevant

  -- what follows the fetching, and the whole.
  unfoldable pub poll_fetched :
      PollTimes → WatchedCompany → Profile → List RawPosting → Exec Poll (Unit {0})
  unfolding criteria_of poll_eligible
  poll_fetched times company profile fetched = do
    report (λ r. record r { fetched = length fetched })
    criteria ← lift (criteria_of env company)
    poll_eligible times company profile
        (filter (λ item. matches_criteria env.unicode item criteria) fetched)

  unfoldable pub poll_board : PollTimes → WatchedCompany → Profile → Exec Poll (Unit {0})
  unfolding poll_fetched
  poll_board times company profile = do
    fetched ← lift (env.fetch company.ats_provider company.ats_token)
    poll_fetched times company profile fetched

  abbrev pub vanished : String
  vanished = "That board no longer exists. Re-add the company with its careers URL."

  -- The handlers: the new status and message of the row.
  abbrev pub handled : Exception → CompanyStatus × String
  handled (Exception.board_not_found m) = (CompanyStatus.unresolved, vanished)
  handled e = (CompanyStatus.error, message e)

  unfoldable pub fail_with : ℕ → Exception → Poll → Poll
  fail_with company_id e p = record p {
    session =
        change
          (update_company company_id
            (λ c. record c { status = (handled e).0; last_error = some (handled e).1 }))
          p.session;
    result = record p.result { error = some (message e) };
  }

  -- the `except` clauses
  unfoldable pub recover : ℕ → Result (Unit {0}) × Poll → Poll
  unfolding fail_with
  recover company_id (ok _, p) = p
  recover company_id (err e, p) = fail_with company_id e p

  -- What follows the `try`.
  unfoldable pub finish_poll : PollTimes → ℕ → Poll → Result PollResult × Session
  finish_poll times company_id p =
      (do commit env.commit_after_failed_flush; pure p.result)
        (change
          (update_company company_id
            (λ c. record c { last_polled_at = some times.finished; polling_started_at = none }))
          p.session)

  -- with the row of `db.get(Profile, company.profile_id)`
  unfoldable pub poll_profile :
      PollTimes → WatchedCompany → Option Profile → Exec Session PollResult
  unfolding poll_board recover finish_poll
  poll_profile times company none s =
      (do
        commit env.commit_after_failed_flush
        pure (record (empty_result company.id) { error = some "Profile not found" }))
        (change
          (update_company company.id (λ c. record c {
            status = CompanyStatus.error;
            last_error = some "Profile not found";
            polling_started_at = none;
          }))
          s)
  poll_profile times company (some profile) s = finish_poll times company.id (
      recover company.id (
        poll_board times company profile
          (record { session = s; result = empty_result company.id; calls = 0 })))

  unfoldable pub poll_claimed : PollTimes → ℕ → Option WatchedCompany → Exec Session PollResult
  unfolding poll_profile
  poll_claimed times company_id none s =
      (ok (record (empty_result company_id) { error = some "already running" }), s)
  poll_claimed times company_id (some company) s =
      poll_profile times company (find_profile company.profile_id s.rows) s

  unfoldable pub poll_company : PollTimes → ℕ → Exec Session PollResult
  unfolding claim_company poll_claimed
  poll_company times company_id = do
    claim ← claim_company env times.claimed company_id
    poll_claimed times company_id claim
