-- ===== src/Radar/Poller/Board.antt =====
-- The `try` block of `poll_company` in app/services/radar/poller.py.
use ai_career_os.Common.{
  ℕ, ◌+◌, ◌-◌, ◌≤◌, String, ◌≡◌, refl, ap, sym, all, Bool, true, List, [], ◌∷◌, ◌++◌, arith,
  Bool-cases, inl, inr, length, filter, none, Within, Within-refl,
}
use ai_career_os.Common.Exec.{
  is_llm_error, Result, ok, err, ◌>>=◌, ◌>>◌, lift, gets, Post, Post-mono, Post->>=, lift-Post,
}
use ai_career_os.Radar.Model.{RawPosting, WatchedCompany, CompanyStatus, Posting, Profile}
use ai_career_os.Radar.Database.{Database, Session, commit}
use ai_career_os.Radar.Triage.{TriageLlm, triage_postings}
use ai_career_os.Radar.Triage.Bounded.{triage_postings-Bounded}
use ai_career_os.Radar.Screener.{ScreenLlm, matches_criteria, screen_postings}
use ai_career_os.Radar.Screener.Loop.{screen_postings-Ran}
use ai_career_os.Radar.Postings.{
  known_external_ids, is_fresh, mem_str, store_postings, unscreened_postings,
}
use ai_career_os.Radar.Poller.{
  PollEnv, PollTimes, Poll, report, on_session, criteria_of, triage, triage_unseen, triage_with,
  screen, screen_with, screened_by, screen_pending, mark_active, poll_stored, poll_triaged,
  poll_eligible, poll_fetched, poll_board,
}
use ai_career_os.Radar.Postings.Keys.{distinct}
use ai_career_os.Radar.Postings.Fresh.{ids, distinct-fresh_ids, all-stored}
use ai_career_os.Radar.Postings.Widths.{item_fits}
use ai_career_os.Radar.Poller.Invariant.{
  Inv, on_session-Post, on_calls-Post, update_company-Inv, commit-Inv, store_postings-Inv,
  write_back-Inv,
}

-- The board lists no external id twice, and its texts are no wider than their columns.
abbrev pub IsStorable : PollEnv → WatchedCompany → Type 0
IsStorable env company =
    (items : List RawPosting)
    → env.fetch company.ats_provider company.ats_token ≡ ok items
    → (distinct (ids items) ≡ true) × (all item_fits items ≡ true)

module _ (env : PollEnv) (times : PollTimes) (company : WatchedCompany) (profile : Profile)
    (base : Database) where
  -- the state of the block: the invariant of the session, and a bound on the calls
  abbrev pub Good : ℕ → Poll → Type 0
  Good limit p = Inv base (IsStorable env company) p.session × (p.calls ≤ limit)

  -- `_triage` leaves the session alone
  abbrev Picked : List RawPosting → Session → List RawPosting → Poll → Type 0
  Picked unseen session relevant p = Good 20 p × Within relevant unseen × (p.session ≡ session)

  triage-Post :
      (unseen : List RawPosting) (client : Result TriageLlm) (p : Poll)
      → Good 0 p
      → Post (Picked unseen p.session) (Good 20) (triage_with env profile unseen client p)
  unfolding triage_with
  triage-Post unseen (ok llm) p good =
      on_calls-Post (Picked unseen p.session) (Good 20)
        (triage_postings env.posting_triage llm profile unseen) p
        (Post-mono (λ kept n. Within kept unseen × (n ≤ p.calls + 20))
          (λ kept n. Picked unseen p.session kept (record p { calls = n })) (λ n. n ≤ p.calls + 20)
          (λ n. Good 20 (record p { calls = n })) _
          (λ kept n h. ((good.0, omega (arith, h.1, good.1)), h.0, refl))
          (λ n h. (good.0, omega (arith, h, good.1)))
          (triage_postings-Bounded env.posting_triage llm profile unseen p.calls))
  triage-Post unseen (err e) p good = elim (Bool-cases (is_llm_error e)) [
    | inl llm_error ↦ rw llm_error ((good.0, omega (arith, good.1)), Within-refl unseen, refl)
    | inr other ↦ rw other (good.0, omega (arith, good.1))
  ]

  triage_unseen-Post :
      (unseen : List RawPosting) (p : Poll)
      → Good 0 p
      → Post (Picked unseen p.session) (Good 20) (triage_unseen env profile unseen p)
  unfolding triage_unseen triage
  triage_unseen-Post [] p good = ((good.0, omega (arith, good.1)), Within-refl [], refl)
  triage_unseen-Post (item ∷ rest) p good = triage-Post (item ∷ rest) env.triage_client p good

  -- at the end of the block
  abbrev Done : Poll → Type 0
  Done = Good (20 + env.screen_limit)

  screen-Post :
      (client : Result ScreenLlm) (p : Poll)
      → Good 20 p
      → Post
          (λ _. Done)
          Done
          (screen_with env profile (unscreened_postings company.id p.session.rows) client p)
  unfolding screen_with screened_by
  screen-Post (ok llm) p good =
      let pending = unscreened_postings company.id p.session.rows in
      let ran =
        screen_postings-Ran env.posting_screen llm profile env.screen_limit pending p.calls in
      let inv = write_back-Inv company.id p.session ran.rows good.0 in
      lift-Post (λ _. Done) Done
        (screen_postings env.posting_screen llm profile env.screen_limit pending p.calls).result _
        (λ _ _. (inv, omega (arith, ran.cheap, good.1))) (inv, omega (arith, ran.cheap, good.1))
  screen-Post (err e) p good = elim (Bool-cases (is_llm_error e)) [
    | inl llm_error ↦ rw llm_error (good.0, omega (arith, good.1))
    | inr other ↦ rw other (good.0, omega (arith, good.1))
  ]

  screen_pending-Post :
      (pending : List Posting) (p : Poll)
      → pending ≡ unscreened_postings company.id p.session.rows
      → Good 20 p
      → Post (λ _. Done) Done (screen_pending env profile pending p)
  unfolding screen_pending screen
  screen_pending-Post [] p same good = (good.0, omega (arith, good.1))
  screen_pending-Post (q ∷ rest) p same good =
      Post->>= (λ _. Done) (λ _. Done) Done (screen env profile (q ∷ rest))
        (λ count. report (λ r. record r { screened = count })) p
        (rw (same, screen) (screen-Post env.screen_client p good)) (λ count p' done. done)

  poll_stored-Post :
      (fresh : ℕ) (p : Poll)
      → Good 20 p
      → Post (λ _. Done) Done (poll_stored env company profile fresh p)
  unfolding poll_stored
  poll_stored-Post fresh p good =
      Post->>= (λ _. Good 20) (λ _. Done) Done (on_session (commit env.commit_after_failed_flush))
        (λ _. do
          pending ← gets (λ p. unscreened_postings company.id p.session.rows)
          screen_pending env profile pending
          mark_active env company)
        (record p { result = record p.result { new_postings = fresh } })
        (on_session-Post (λ _. Good 20) Done (commit env.commit_after_failed_flush) _
          (λ _. (commit-Inv env.commit_after_failed_flush p.session good.0, good.1))
          (commit-Inv env.commit_after_failed_flush p.session good.0, omega (arith, good.1)))
        (λ _ q good'.
          Post->>= (λ _. Done) (λ _. Done) Done
            (screen_pending env profile (unscreened_postings company.id q.session.rows))
            (λ _. mark_active env company) q
            (screen_pending-Post (unscreened_postings company.id q.session.rows) q refl good')
            (λ _ q' done. (
              update_company-Inv company.id
                  (λ c. record c { status = CompanyStatus.active; last_error = none }) (λ c. refl)
                  done.0,
              done.1,
            )))

  poll_triaged-Post :
      (known : List String) (wants : RawPosting → Bool) (fetched relevant : List RawPosting)
      (p : Poll)
      → env.fetch company.ats_provider company.ats_token ≡ ok fetched
      → known ≡ known_external_ids company.id p.session.rows
      → Good 20 p
      → Within relevant (filter (is_fresh known) (filter wants fetched))
      → Post
          (λ _. Done)
          Done
          (poll_triaged env times company profile known (filter wants fetched) relevant p)
  unfolding poll_triaged
  poll_triaged-Post known wants fetched relevant p answered same good within =
      let eligible = filter wants fetched in
      let items = filter (λ item. mem_str item.external_id known) eligible ++ relevant in
      let inv =
        store_postings-Inv times.stored company items p.session
          (λ clean.
            rw⁻¹ same
              (distinct-fresh_ids known wants fetched relevant (clean fetched answered).0 within))
          (λ clean.
            all-stored item_fits known wants fetched relevant (clean fetched answered).1 within)
          good.0 in
      Post->>= (λ _. Good 20) (λ _. Done) Done
        (on_session (store_postings times.stored company items)) (poll_stored env company profile)
        (record p {
          result = record p.result {
            dropped_by_triage = length (filter (is_fresh known) eligible) - length relevant;
          };
        })
        (on_session-Post (λ _. Good 20) Done (store_postings times.stored company items) _
          (λ _. (inv, good.1)) (inv, omega (arith, good.1)))
        (λ fresh q good'. poll_stored-Post fresh q good')

  poll_eligible-Post :
      (wants : RawPosting → Bool) (fetched : List RawPosting) (p : Poll)
      → env.fetch company.ats_provider company.ats_token ≡ ok fetched
      → Good 0 p
      → Post (λ _. Done) Done (poll_eligible env times company profile (filter wants fetched) p)
  unfolding poll_eligible
  poll_eligible-Post wants fetched p answered good =
      let known = known_external_ids company.id p.session.rows in
      let unseen = filter (is_fresh known) (filter wants fetched) in
      Post->>= (Picked unseen p.session) (λ _. Done) Done (triage_unseen env profile unseen)
        (λ relevant. poll_triaged env times company profile known (filter wants fetched) relevant) p
        (Post-mono (Picked unseen p.session) (Picked unseen p.session) (Good 20) Done
          (triage_unseen env profile unseen p) (λ relevant q picked. picked)
          (λ q good'. (good'.0, omega (arith, good'.1))) (triage_unseen-Post unseen p good))
        (λ relevant q picked.
          let (good', within, same) = picked in
          poll_triaged-Post known wants fetched relevant q answered
            (ap (λ (s : Session). known_external_ids company.id s.rows) (sym same)) good' within)

  poll_fetched-Post :
      (fetched : List RawPosting) (p : Poll)
      → env.fetch company.ats_provider company.ats_token ≡ ok fetched
      → Good 0 p
      → Post (λ _. Done) Done (poll_fetched env times company profile fetched p)
  unfolding poll_fetched
  poll_fetched-Post fetched p answered good =
      Post->>= (λ _. Good 0) (λ _. Done) Done (lift (criteria_of env company))
        (λ criteria.
          poll_eligible env times company profile
            (filter (λ item. matches_criteria env.unicode item criteria) fetched))
        (record p { result = record p.result { fetched = length fetched } })
        (lift-Post (λ _. Good 0) Done (criteria_of env company) _ (λ _ _. good)
          (good.0, omega (arith, good.1)))
        (λ criteria q good'.
          poll_eligible-Post (λ item. matches_criteria env.unicode item criteria) fetched q answered
            good')

  -- Whatever the board and the models answer or raise, the block keeps the tables in order, drops
  -- or moves no row, changes the decision on one only from `new` to screened, and makes at most 20
  -- calls for triage and as many as the limit of the settings for screening. If the board lists no
  -- id twice and no text wider than its column, its session can still be committed.
  pub poll_board-Post :
      (p : Poll)
      → Good 0 p
      → Post
          (λ _. Good (20 + env.screen_limit))
          (Good (20 + env.screen_limit))
          (poll_board env times company profile p)
  unfolding poll_board
  poll_board-Post p good =
      let fetch = env.fetch company.ats_provider company.ats_token in
      Post->>= (λ fetched q. (fetch ≡ ok fetched) × Good 0 q) (λ _. Done) Done (lift fetch)
        (poll_fetched env times company profile) p
        (lift-Post (λ fetched q. (fetch ≡ ok fetched) × Good 0 q) Done fetch p
          (λ fetched e. (e, good)) (good.0, omega (arith, good.1)))
        (λ fetched q h. poll_fetched-Post fetched q h.0 h.1)
