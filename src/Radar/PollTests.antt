-- ===== src/Radar/PollTests.antt =====
-- Polls of a concrete database.
use ai_career_os.Common.{
  all, not, ◌&&◌, ◌+◌, ◌≡◌, refl, subst, true, false, none, some, List, [], ◌∷◌, arith,
  if◌then◌else◌, ltb, filter, length,
}
use ai_career_os.Common.Text.{str_len, contains}
use ai_career_os.Common.Exec.{Exception, integrity_error, Result, ok, err, Post}
use ai_career_os.Radar.Model.{RawPosting, empty_result}
use ai_career_os.Radar.Database.{fits_columns, data_error, find_company, open_session, unique_keys}
use ai_career_os.Radar.Screener.{matches_criteria}
use ai_career_os.Radar.Postings.{known_external_ids, store_items, store_postings}
use ai_career_os.Radar.Postings.Keys.{distinct, fresh_ids}
use ai_career_os.Radar.Postings.Fresh.{ids}
use ai_career_os.Radar.Postings.Rows.{Evolved, IsTable}
use ai_career_os.Radar.Postings.Ids.{HasIds}
use ai_career_os.Radar.Postings.Store.{store_postings-upsert}
use ai_career_os.Radar.Postings.Widths.{item_fits}
use ai_career_os.Radar.Poller.{
  Poll, mark_claimed, claim_company, criteria_of, poll_board, poll_company,
}
use ai_career_os.Radar.Poller.Claim.{claim_company-exclusive}
use ai_career_os.Radar.Poller.Board.{Good, IsStorable, poll_board-Post}
use ai_career_os.Radar.Poller.Outcome.{open_session-Inv, poll_company-keeps}
use ai_career_os.Radar.Poller.Release.{Released, poll_company-Released}
use ai_career_os.Radar.Poller.Duplicates.{poll_company_twice}
use ai_career_os.Radar.Samples.{
  board, watched, tables, poll_env, env_twice, times, candidate, wanted, role,
}

tables-IsTable : IsTable tables
tables-IsTable = record {
  unique = unfold unique_keys in refl;
  fits = unfold fits_columns str_len in refl;
  primary = refl;
  below = (omega arith, (omega arith, (omega arith, tt)));
}

board_fits : all item_fits board ≡ true
unfolding str_len
board_fits = refl

board-IsStorable : IsStorable poll_env watched
board-IsStorable items e =
    subst (λ xs. (distinct (ids xs) ≡ true) × (all item_fits xs ≡ true)) (board_is items e)
      (refl, board_fits)
  where
    board_is :
        (items : List RawPosting)
        → ◌≡◌ {A = Result (List RawPosting)} (ok board) (ok items)
        → board ≡ items
    board_is items e = cc

claim_company-exclusive_example :
    let (r, s') = claim_company poll_env 1000 7 (open_session tables) in
    (r ≡ ok (some (mark_claimed 1000 watched)))
    × ((claim_company poll_env 1200 7 (open_session s'.saved)).0
        ≡ ok (
            if ltb 1200 (1000 + 500)
            then none
            else some (mark_claimed 1200 (mark_claimed 1000 watched))))
claim_company-exclusive_example =
    claim_company-exclusive poll_env 1000 7 (open_session tables) {company = watched} 1200
      (record { unique = tables-IsTable.unique; fits = tables-IsTable.fits; sound = refl }) refl
      refl refl

store_postings-upsert_example :
    let known = known_external_ids 7 tables in
    let rows' = store_items 1001 watched known board tables in
    (store_postings 1001 watched board (open_session tables) ≡ (
      if all fits_columns rows'.postings
      then if distinct (fresh_ids known board)
        then (ok (length (fresh_ids known board)), record (open_session tables) { rows = rows' })
        else (
          err (integrity_error "uq_postings_company_external_id"),
          record (open_session tables) { rows = tables; needs_rollback = true },
        )
      else (err data_error, record (open_session tables) { rows = tables; needs_rollback = true })))
    × ((all item_fits board && not (all fits_columns rows'.postings)) ≡ false)
    × Evolved tables.postings rows'.postings
    × (unique_keys rows'.postings ≡ distinct (fresh_ids known board))
    × HasIds rows'
store_postings-upsert_example =
    store_postings-upsert 1001 watched board (open_session tables) tables-IsTable

abbrev start : Poll
start = record { session = open_session tables; result = empty_result 7; calls = 0 }

poll_board-Post_example :
    Post
      (λ _. Good poll_env times watched candidate tables (20 + 20))
      (Good poll_env times watched candidate tables (20 + 20))
      (poll_board poll_env times watched candidate start)
poll_board-Post_example =
    poll_board-Post poll_env times watched candidate tables start
      (open_session-Inv tables tables-IsTable, omega arith)

poll_company-keeps_example :
    let s' = (poll_company poll_env times 7 (open_session tables)).1 in
    Evolved tables.postings s'.saved.postings × IsTable s'.saved
poll_company-keeps_example = poll_company-keeps poll_env times 7 tables tables-IsTable

poll_company-Released_example :
    Released 7 (some 1002) (poll_company poll_env times 7 (open_session tables))
poll_company-Released_example =
    poll_company-Released poll_env times 7 tables {company = watched} tables-IsTable refl refl refl
      board-IsStorable

criteria_twice : criteria_of env_twice watched ≡ ok wanted
unfolding criteria_of
criteria_twice = refl

listed_twice :
    distinct (
      fresh_ids (known_external_ids 7 tables) (
        filter
          (λ item. matches_criteria env_twice.unicode item wanted)
          (role "n" "Data Engineer" false ∷ role "n" "Data Engineer" true ∷ [])))
    ≡ false
unfolding known_external_ids matches_criteria contains
listed_twice = refl

poll_company_twice_example :
    let out = poll_company env_twice times 7 (open_session tables) in
    (out.0 ≡ err (Exception.other "PendingRollbackError"))
    × (find_company 7 out.1.saved ≡ some (mark_claimed 1000 watched))
poll_company_twice_example =
    poll_company_twice env_twice times 7 tables {company = watched} {profile = candidate}
      {criteria = wanted} (role "n" "Data Engineer" false ∷ role "n" "Data Engineer" true ∷ [])
      {e = Exception.llm_configuration "no API key"}
      {broken = Exception.other "PendingRollbackError"} tables-IsTable refl refl refl refl refl
      criteria_twice refl refl listed_twice refl
