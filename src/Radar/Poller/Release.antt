-- ===== src/Radar/Poller/Release.antt =====
-- `poll_company` of app/services/radar/poller.py: the claim when a poll is over.
use ai_career_os.Common.{
  ℕ, ◌≡◌, refl, ap, sym, subst, ◌∙◌, true, false, ◌||◌, List, [], ◌∷◌, map, arith, if_true,
  if_false, ◌==◌, any, find?, Bool-cases, inl, inr, Option, none, some,
}
use ai_career_os.Common.Exec.{Result, ok, ◌>>◌, >>=-ok, pure}
use ai_career_os.Radar.Model.{WatchedCompany, Profile, PollResult}
use ai_career_os.Radar.Database.{
  Database, Session, find_profile, find_company, update_company, change, commit, commit-ready,
  open_session,
}
use ai_career_os.Radar.Postings.Rows.{IsTable}
use ai_career_os.Radar.Poller.{
  PollEnv, PollTimes, mark_claimed, is_live, finish_poll, poll_profile, poll_claimed, claim_company,
  poll_company,
}
use ai_career_os.Radar.Poller.Claim.{
  find-update_self, found_after, claim_company-eq, claimed_session,
}
use ai_career_os.Radar.Poller.Invariant.{Inv, IsReady-Inv, update_company-Inv}
use ai_career_os.Radar.Poller.Board.{IsStorable}
use ai_career_os.Radar.Poller.Outcome.{open_session-Inv, recovered-Inv}

-- the ids of the companies decide which rows are there
any-ids :
    (id : ℕ) (rows : List WatchedCompany)
    → any (λ c. c.id == id) rows ≡ any (λ i. i == id) (map (λ c. c.id) rows)
any-ids id [] = refl
any-ids id (c ∷ rows) = ap (λ b. c.id == id || b) (any-ids id rows)

find-any :
    (id : ℕ) (rows : List WatchedCompany) {c : WatchedCompany}
    → find? (λ c. c.id == id) rows ≡ some c
    → (any (λ c. c.id == id) rows ≡ true) × (c.id ≡ id)
find-any id [] h = absurd cc
find-any id (r ∷ rows) {c} h = elim (Bool-cases (r.id == id)) [
  | inl e ↦ (ground (arith, e), ground (arith, e, h))
  | inr e ↦
      let (there, same) = find-any id rows {c = c} (ground (arith, e, h)) in
      (ground (arith, there), same)
]

any-find :
    (id : ℕ) (rows : List WatchedCompany)
    → any (λ c. c.id == id) rows ≡ true
    → (c : WatchedCompany) × (find? (λ c. c.id == id) rows ≡ some c)
any-find id [] h = absurd cc
any-find id (r ∷ rows) h = elim (Bool-cases (r.id == id)) [
  | inl e ↦ (r, if_true _ _ e)
  | inr e ↦ let (c, found) = any-find id rows (ground (arith, e, h)) in (c, if_false _ _ e ∙ found)
]

-- The call returned and saved a row with no claim on it and this time of the last poll.
pub record Released (id : ℕ) (polled : Option ℕ) (out : Result PollResult × Session) : Type 0 where
  pub result : PollResult
  pub after : WatchedCompany
  pub returned : out.0 ≡ ok result
  pub found : find_company id out.1.saved ≡ some after
  pub released : after.polling_started_at ≡ none
  pub polled_at : after.last_polled_at ≡ polled

-- the time of the last poll once the poll is over
abbrev pub polled_by : PollTimes → Option Profile → Option ℕ → Option ℕ
polled_by times none before = before
polled_by times (some _) before = some times.finished

module _ (env : PollEnv) (times : PollTimes) {base : Database} where
  still_there :
      {Clean : Type 0} (id : ℕ) (s : Session) {c : WatchedCompany}
      → Inv base Clean s
      → find_company id base ≡ some c
      → (x : WatchedCompany) × (find_company id s.rows ≡ some x)
  still_there id s {c} h there = any-find id s.rows.companies (
      any-ids id s.rows.companies
      ∙ ap (any (λ i. i == id)) h.watched
      ∙ sym (any-ids id base.companies)
      ∙ (find-any id base.companies {c = c} there).0)

  settle-Released :
      {Clean : Type 0} (id : ℕ) (f : WatchedCompany → WatchedCompany) (value : PollResult)
      (s : Session) {x : WatchedCompany}
      → ((c : WatchedCompany) → (f c).id ≡ c.id)
      → Inv base Clean s
      → s.needs_rollback ≡ false
      → find_company id s.rows ≡ some x
      → (f x).polling_started_at ≡ none
      → Released id
          (f x).last_polled_at
          ((do commit env.commit_after_failed_flush; pure value) (change (update_company id f) s))
  unfolding update_company
  settle-Released id f value s {x} keeps h sound there free =
      let done =
        >>=-ok (commit env.commit_after_failed_flush) (λ _. pure value)
          (change (update_company id f) s)
          (commit-ready env.commit_after_failed_flush (change (update_company id f) s)
            (IsReady-Inv (update_company-Inv id f {s = s} keeps h) sound)) in
      record {
        result = value;
        after = f x;
        returned = ap (λ (out : Result PollResult × Session). out.0) done;
        found =
            ap (λ (out : Result PollResult × Session). find_company id out.1.saved) done
            ∙ find-update_self id f s.rows.companies {row = x} keeps there;
        released = free;
        polled_at = refl;
      }

  poll_profile-Released :
      (company : WatchedCompany) (profile : Option Profile) (s : Session) {c x : WatchedCompany}
      → IsStorable env company
      → Inv base (IsStorable env company) s
      → find_company company.id base ≡ some c
      → find_company company.id s.rows ≡ some x
      → Released company.id
          (polled_by times profile x.last_polled_at)
          (poll_profile env times company profile s)
  unfolding poll_profile finish_poll
  poll_profile-Released company none s clean h there found =
      settle-Released company.id _ _ s (λ c. refl) h (h.sound clean) found refl
  poll_profile-Released company (some profile) s {c} clean h there found =
      let after = recovered-Inv env times company profile s h in
      let (x, found') = still_there company.id _ {c = c} after there in
      settle-Released company.id
        (λ c. record c { last_polled_at = some times.finished; polling_started_at = none }) _ _
        {x = x} (λ c. refl) after (after.sound clean) found' refl

-- If the tables are in order, no other transaction holds the row of a company, no live claim is on
-- it, and its board lists no id twice and no text that is wider than its column, then the poll
-- returns, whatever else the board, the criteria, the models and the profile are. It saves the row with no claim on it and, where the profile exists,
-- with the time of this poll.
pub poll_company-Released :
    (env : PollEnv) (times : PollTimes) (company_id : ℕ) (db : Database) {company : WatchedCompany}
    → IsTable db
    → env.row_locked ≡ false
    → find_company company_id db ≡ some company
    → is_live env.stale_claim times.claimed company.polling_started_at ≡ false
    → IsStorable env company
    → Released company_id
        (polled_by times (find_profile company.profile_id db) company.last_polled_at)
        (poll_company env times company_id (open_session db))
unfolding poll_company poll_claimed update_company
poll_company-Released env times company_id db {company} table free there old clean =
    subst
      (Released company_id
        (polled_by times (find_profile company.profile_id db) company.last_polled_at))
      (sym (
        >>=-ok (claim_company env times.claimed company_id) (poll_claimed env times company_id)
          (open_session db) claim))
      (subst
        (λ id.
          Released id (polled_by times (find_profile company.profile_id db) company.last_polled_at)
            (poll_profile env times mine (find_profile company.profile_id db) s1))
        same
        (poll_profile-Released env times mine (find_profile company.profile_id db) s1 {c = company}
          {x = mine} clean claimed-Inv
          (subst (λ id. find_company id db ≡ some company) (sym same) there)
          (subst (λ id. find_company id s1.rows ≡ some mine) (sym same)
            (found_after company_id times.claimed db there))))
  where
    mine : WatchedCompany
    mine = mark_claimed times.claimed company

    s1 : Session
    s1 = claimed_session env times.claimed company_id (open_session db)

    same : company.id ≡ company_id
    same = (find-any company_id db.companies {c = company} there).1

    start : Inv db (IsStorable env company) (open_session db)
    start = open_session-Inv db table

    claim : claim_company env times.claimed company_id (open_session db) ≡ (ok (some mine), s1)
    claim =
        claim_company-eq env times.claimed company_id (open_session db) {company = company}
          (IsReady-Inv start refl) free there old

    claimed-Inv : Inv db (IsStorable env company) s1
    claimed-Inv =
        let after =
          update_company-Inv company_id (mark_claimed times.claimed) {s = open_session db}
            (λ c. refl) start in
        record {
          table = after.table;
          saved_table = after.table;
          evolved = after.evolved;
          saved_evolved = after.evolved;
          watched = after.watched;
          saved_watched = after.watched;
          sound = λ c. refl;
        }
