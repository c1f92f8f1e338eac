-- ===== src/Radar/Poller/Claim.antt =====
-- `claim_company` of app/services/radar/poller.py.
use ai_career_os.Common.{
  ℕ, ◌+◌, ◌≡◌, refl, ap, sym, ◌∙◌, true, false, Option, none, some, List, [], ◌∷◌, map, arith,
  if◌then◌else◌, ltb, ◌==◌, Bool-cases, if_true, if_false, inl, inr, find?,
}
use ai_career_os.Common.Exec.{Result, ok, pure, >>=-ok}
use ai_career_os.Radar.Model.{WatchedCompany}
use ai_career_os.Radar.Database.{
  Database, Session, find_company, update_row, update_row_hit, update_row_miss, update_company,
  commit, commit-ready, IsReady, update_company-IsReady, change, open_session,
}
use ai_career_os.Radar.Poller.{PollEnv, claim_row, claim_company, mark_claimed, is_live}

-- looking up the row that was changed
pub find-update_self :
    (id : ℕ) (f : WatchedCompany → WatchedCompany) (rows : List WatchedCompany)
    {row : WatchedCompany}
    → ((r : WatchedCompany) → (f r).id ≡ r.id)
    → find? (λ r. r.id == id) rows ≡ some row
    → find? (λ r. r.id == id) (map (update_row id f) rows) ≡ some (f row)
find-update_self id f [] keeps e = cc
find-update_self id f (r ∷ rows) {row} keeps e = elim (Bool-cases (r.id == id)) [
  | inl same ↦ ground (
    arith,
    update_row_hit id f r same,
    keeps r,
    ap (λ (x : WatchedCompany). x.id) (update_row_hit id f r same),
  )
  | inr ne ↦ ground (
    arith,
    update_row_miss id f r ne,
    find-update_self id f rows {row = row} keeps,
    ap (λ (x : WatchedCompany). x.id) (update_row_miss id f r ne),
  )
]

pub found_after :
    (id now : ℕ) (db : Database) {row : WatchedCompany}
    → find_company id db ≡ some row
    → find_company id (update_company id (mark_claimed now) db) ≡ some (mark_claimed now row)
unfolding update_company
found_after id now db e = find-update_self id (mark_claimed now) db.companies (λ r. refl) e

module _ (env : PollEnv) (now company_id : ℕ) (s : Session) where
  abbrev pub claimed_session : Session
  claimed_session =
      let s' = change (update_company company_id (mark_claimed now)) s in
      record s' { saved = s'.rows }

  pub claim_company-eq :
      {company : WatchedCompany}
      → IsReady s
      → env.row_locked ≡ false
      → find_company company_id s.rows ≡ some company
      → is_live env.stale_claim now company.polling_started_at ≡ false
      → claim_company env now company_id s ≡ (ok (some (mark_claimed now company)), claimed_session)
  unfolding claim_company claim_row
  claim_company-eq {company} ready free found old =
      let done =
        commit-ready env.commit_after_failed_flush
          (change (update_company company_id (mark_claimed now)) s)
          (update_company-IsReady company_id (mark_claimed now) ready) in
      rw (free, claim_company)
        (rw found (
          rw old (
            >>=-ok (commit env.commit_after_failed_flush)
              (λ _. pure (some (mark_claimed now company)))
              (change (update_company company_id (mark_claimed now)) s) done)))

  claim_company_live :
      {company : WatchedCompany}
      → env.row_locked ≡ false
      → find_company company_id s.rows ≡ some company
      → is_live env.stale_claim now company.polling_started_at ≡ true
      → claim_company env now company_id s ≡ (ok none, s)
  unfolding claim_company claim_row
  claim_company_live free found live = rw (free, claim_company) (rw found (rw live))

module _ (env : PollEnv) (now company_id : ℕ) (s : Session) where
  -- A company that is there and has no live claim on it can be claimed, where no other
  -- transaction holds its row. A second attempt on what was saved gets nothing while the claim is
  -- younger than the stale time, and takes the claim over from then on.
  pub claim_company-exclusive :
      {company : WatchedCompany} (later : ℕ)
      → IsReady s
      → env.row_locked ≡ false
      → find_company company_id s.rows ≡ some company
      → is_live env.stale_claim now company.polling_started_at ≡ false
      → let (r, s') = claim_company env now company_id s in
        (r ≡ ok (some (mark_claimed now company)))
        × ((claim_company env later company_id (open_session s'.saved)).0
            ≡ ok (
                if ltb later (now + env.stale_claim)
                then none
                else some (mark_claimed later (mark_claimed now company))))
  claim_company-exclusive {company} later ready free found old =
      rw (claim_company-eq env now company_id s ready free found old) (refl, second)
    where
      s' : Session
      s' = open_session (update_company company_id (mark_claimed now) s.rows)

      ready' : IsReady s'
      ready' =
          let r = update_company-IsReady company_id (mark_claimed now) ready in
          record { unique = r.unique; fits = r.fits; sound = refl }

      found' : find_company company_id s'.rows ≡ some (mark_claimed now company)
      found' = found_after company_id now s.rows found

      second :
          (claim_company env later company_id s').0
          ≡ ok (
              if ltb later (now + env.stale_claim)
              then none
              else some (mark_claimed later (mark_claimed now company)))
      second = elim (Bool-cases (ltb later (now + env.stale_claim))) [
        | inl live ↦
            ap (λ (x : Result (Option WatchedCompany) × Session). x.0)
              (claim_company_live env later company_id s' free found' live)
            ∙ ap ok (sym (if_true _ _ live))
        | inr stale ↦
            ap (λ (x : Result (Option WatchedCompany) × Session). x.0)
              (claim_company-eq env later company_id s' ready' free found' stale)
            ∙ ap ok (sym (if_false _ _ stale))
      ]
