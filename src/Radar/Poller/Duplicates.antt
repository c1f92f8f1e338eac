-- ===== src/Radar/Poller/Duplicates.antt =====
-- `poll_company` of app/services/radar/poller.py on a board that lists a new id twice.
use ai_career_os.Common.{
  ℕ, ◌-◌, String, ◌≡◌, refl, ap, ◌∙◌, true, false, List, [], ◌∷◌, ◌++◌, map, if_true, length,
  filter, Bool-cases, inl, inr, Option, none, some,
}
use ai_career_os.Common.Exec.{
  Exception, message, is_llm_error, Result, ok, err, >>=-ok, >>=-err, pure, lift,
}
use ai_career_os.Radar.Model.{
  RawPosting, WatchedCompany, Profile, PollResult, WatchCriteria, empty_result,
}
use ai_career_os.Radar.Database.{
  Database, Session, find_profile, find_company, update_company, change, commit, open_session,
}
use ai_career_os.Radar.Screener.{matches_criteria}
use ai_career_os.Radar.Postings.{known_external_ids, is_fresh, mem_str, store_postings}
use ai_career_os.Radar.Postings.Keys.{distinct, fresh_ids}
use ai_career_os.Radar.Postings.Rows.{IsTable}
use ai_career_os.Radar.Postings.Store.{store_postings-twice}
use ai_career_os.Radar.Poller.{
  PollEnv, PollTimes, Poll, mark_claimed, is_live, criteria_of, on_session, triage, triage_with,
  triage_unseen, poll_stored, poll_triaged, poll_eligible, poll_fetched, poll_board, fail_with,
  handled, recover, finish_poll, poll_profile, poll_claimed, claim_company, poll_company,
}
use ai_career_os.Radar.Poller.Claim.{found_after, claim_company-eq, claimed_session}
use ai_career_os.Radar.Poller.Invariant.{IsReady-Inv}
use ai_career_os.Radar.Poller.Outcome.{open_session-Inv}

-- the roles that `poll_company` hands to `_store_postings` when all that are new are kept
abbrev stored : List String → List RawPosting → List RawPosting
stored known eligible =
    filter (λ item. mem_str item.external_id known) eligible ++ filter (is_fresh known) eligible

fresh-fresh :
    (known : List String) (xs : List RawPosting)
    → filter (is_fresh known) (filter (is_fresh known) xs) ≡ filter (is_fresh known) xs
fresh-fresh known [] = refl
fresh-fresh known (x ∷ xs) = elim (Bool-cases (mem_str x.external_id known)) [
  | inl old ↦ rw old (fresh-fresh known xs)
  | inr new ↦ rw new (rw new (ap (◌∷◌ x) (fresh-fresh known xs)))
]

fresh-stored :
    (known : List String) (xs ys : List RawPosting)
    → filter (is_fresh known) (filter (λ item. mem_str item.external_id known) xs ++ ys)
      ≡ filter (is_fresh known) ys
fresh-stored known [] ys = refl
fresh-stored known (x ∷ xs) ys = elim (Bool-cases (mem_str x.external_id known)) [
  | inl old ↦ rw old (rw old (fresh-stored known xs ys))
  | inr new ↦ rw new (fresh-stored known xs ys)
]

fresh_ids-stored :
    (known : List String) (eligible : List RawPosting)
    → fresh_ids known (stored known eligible) ≡ fresh_ids known eligible
fresh_ids-stored known eligible =
    ap (map (λ item. item.external_id))
      (fresh-stored known eligible (filter (is_fresh known) eligible) ∙ fresh-fresh known eligible)

module _ (env : PollEnv) (times : PollTimes) (company : WatchedCompany) (profile : Profile) where
  triage_unseen_down :
      (unseen : List RawPosting) (p : Poll) {e : Exception}
      → env.triage_client ≡ err e
      → is_llm_error e ≡ true
      → triage_unseen env profile unseen p ≡ (ok unseen, p)
  unfolding triage_unseen triage triage_with
  triage_unseen_down [] p down llm = refl
  triage_unseen_down (item ∷ rest) p down llm = rw (down, triage_with) (rw llm)

  -- the `try` block
  poll_board_twice :
      (fetched : List RawPosting) (p : Poll) {criteria : WatchCriteria} {e : Exception}
      → IsTable p.session.rows
      → env.fetch company.ats_provider company.ats_token ≡ ok fetched
      → criteria_of env company ≡ ok criteria
      → env.triage_client ≡ err e
      → is_llm_error e ≡ true
      → distinct (
          fresh_ids
            (known_external_ids company.id p.session.rows)
            (filter (λ item. matches_criteria env.unicode item criteria) fetched))
        ≡ false
      → (result : PollResult) × ((x : Exception) × (poll_board env times company profile p ≡ (
        err x,
        record {
          session = record p.session { rows = p.session.saved; needs_rollback = true };
          result = result;
          calls = p.calls;
        },
      )))
  unfolding poll_board poll_fetched poll_eligible poll_triaged
  poll_board_twice fetched p {criteria} table answered valid down llm twice =
      (result2, (failure.0, whole))
    where
      eligible : List RawPosting
      eligible = filter (λ item. matches_criteria env.unicode item criteria) fetched

      known : List String
      known = known_external_ids company.id p.session.rows

      unseen : List RawPosting
      unseen = filter (is_fresh known) eligible

      result1 : PollResult
      result1 = record p.result { fetched = length fetched }

      result2 : PollResult
      result2 = record result1 { dropped_by_triage = length unseen - length unseen }

      fetch : Result (List RawPosting)
      fetch = env.fetch company.ats_provider company.ats_token

      p1 : Poll
      p1 = record p { result = result1 }

      p2 : Poll
      p2 = record p { result = result2 }

      failure :
          (x : Exception) × (store_postings times.stored company (stored known eligible) p.session
            ≡ (err x, record p.session { rows = p.session.saved; needs_rollback = true }))
      failure =
          store_postings-twice times.stored company (stored known eligible) p.session table
            (ap distinct (fresh_ids-stored known eligible) ∙ twice)

      whole : poll_board env times company profile p ≡ (
        err failure.0,
        record {
          session = record p.session { rows = p.session.saved; needs_rollback = true };
          result = result2;
          calls = p.calls;
        },
      )
      whole =
          >>=-ok (lift fetch) (poll_fetched env times company profile) p (ap (λ r. (r, p)) answered)
          ∙ >>=-ok (lift (criteria_of env company))
              (λ c.
                poll_eligible env times company profile
                  (filter (λ item. matches_criteria env.unicode item c) fetched))
              p1 (ap (λ r. (r, p1)) valid)
          ∙ >>=-ok (triage_unseen env profile unseen)
              (λ relevant. poll_triaged env times company profile known eligible relevant) p1
              (triage_unseen_down unseen p1 down llm)
          ∙ >>=-err (on_session (store_postings times.stored company (stored known eligible)))
              (poll_stored env company profile) p2
              (ap (λ (out : Result ℕ × Session). (out.0, record p2 { session = out.1 })) failure.1)

  commit_dirty :
      (s : Session) {broken : Exception}
      → env.commit_after_failed_flush ≡ err broken
      → s.needs_rollback ≡ true
      → commit env.commit_after_failed_flush s ≡ (err broken, s)
  unfolding commit
  commit_dirty s raises dirty = rw raises (if_true _ _ dirty)

  -- what follows: the handler and the last commit
  finish_dirty :
      (p : Poll) (x : Exception) {broken : Exception}
      → env.commit_after_failed_flush ≡ err broken
      → p.session.needs_rollback ≡ true
      → let out = finish_poll env times company.id (recover env company.id (err x, p)) in
        (out.0 ≡ err broken) × (out.1.saved ≡ p.session.saved)
  unfolding finish_poll recover fail_with
  finish_dirty p x {broken} raises dirty =
      let after =
        change
          (update_company company.id
            (λ c. record c { last_polled_at = some times.finished; polling_started_at = none }))
          (change
            (update_company company.id
              (λ c. record c { status = (handled env x).0; last_error = some (handled env x).1 }))
            p.session) in
      let failed =
        >>=-err (commit env.commit_after_failed_flush)
          (λ _. pure (record p.result { error = some (message x) })) after
          (commit_dirty after raises dirty) in
      (
        ap (λ (out : Result PollResult × Session). out.0) failed,
        ap (λ (out : Result PollResult × Session). out.1.saved) failed,
      )

-- A case in which the poll fails its own contract: no other transaction holds the row, no live
-- claim is on it, its profile exists, the board answers, the criteria are valid, no model can be
-- called (so triage lets every role through), and a role that the watch wants and that is new
-- stands twice on the board. Then, if `commit()` raises on a session whose flush failed, the poll
-- raises, and the saved row still has the claim, and of errors only the one it had before.
pub poll_company_twice :
    (env : PollEnv) (times : PollTimes) (company_id : ℕ) (db : Database) {company : WatchedCompany}
    {profile : Profile} {criteria : WatchCriteria} (fetched : List RawPosting)
    {e broken : Exception}
    → IsTable db
    → env.row_locked ≡ false
    → find_company company_id db ≡ some company
    → is_live env.stale_claim times.claimed company.polling_started_at ≡ false
    → find_profile company.profile_id db ≡ some profile
    → env.fetch company.ats_provider company.ats_token ≡ ok fetched
    → criteria_of env company ≡ ok criteria
    → env.triage_client ≡ err e
    → is_llm_error e ≡ true
    → distinct (
        fresh_ids
          (known_external_ids company.id db)
          (filter (λ item. matches_criteria env.unicode item criteria) fetched))
      ≡ false
    → env.commit_after_failed_flush ≡ err broken
    → let out = poll_company env times company_id (open_session db) in
      (out.0 ≡ err broken)
      × (find_company company_id out.1.saved ≡ some (mark_claimed times.claimed company))
unfolding poll_company poll_claimed poll_profile update_company known_external_ids
poll_company_twice env times company_id db {company} {profile} {criteria} fetched {e} {broken} table
      free there old has_profile answered valid down llm twice raises =
    (
      ap (λ (out : Result PollResult × Session). out.0) whole ∙ last.0,
      ap (λ (out : Result PollResult × Session). find_company company_id out.1.saved) whole
          ∙ ap (find_company company_id) last.1
          ∙ found_after company_id times.claimed db there,
    )
  where
    mine : WatchedCompany
    mine = mark_claimed times.claimed company

    s1 : Session
    s1 = claimed_session env times.claimed company_id (open_session db)

    p0 : Poll
    p0 = record { session = s1; result = empty_result mine.id; calls = 0 }

    table1 : IsTable s1.rows
    table1 = record {
      unique = table.unique;
      fits = table.fits;
      primary = table.primary;
      below = table.below;
    }

    claim : claim_company env times.claimed company_id (open_session db) ≡ (ok (some mine), s1)
    claim =
        claim_company-eq env times.claimed company_id (open_session db) {company = company}
          (IsReady-Inv {Clean = Unit} (open_session-Inv db table) refl) free there old

    block :
        (result : PollResult) × ((x : Exception) × (poll_board env times mine profile p0 ≡ (
          err x,
          record {
            session = record s1 { rows = s1.saved; needs_rollback = true };
            result = result;
            calls = 0;
          },
        )))
    block =
        poll_board_twice env times mine profile fetched p0 {criteria = criteria} {e = e} table1
          answered valid down llm twice

    dirty : Poll
    dirty = record {
      session = record s1 { rows = s1.saved; needs_rollback = true };
      result = block.0;
      calls = 0;
    }

    raised : Exception
    raised = block.1.0

    whole :
        poll_company env times company_id (open_session db)
        ≡ finish_poll env times mine.id (recover env mine.id (err raised, dirty))
    whole =
        >>=-ok (claim_company env times.claimed company_id) (poll_claimed env times company_id)
          (open_session db) claim
        ∙ ap (λ (row : Option Profile). poll_profile env times mine row s1) has_profile
        ∙ ap
            (λ (run : Result (Unit {0}) × Poll).
              finish_poll env times mine.id (recover env mine.id run))
            block.1.1

    last :
        ((finish_poll env times mine.id (recover env mine.id (err raised, dirty))).0 ≡ err broken)
        × ((finish_poll env times mine.id (recover env mine.id (err raised, dirty))).1.saved
            ≡ s1.saved)
    last = finish_dirty env times mine profile dirty raised raises refl
