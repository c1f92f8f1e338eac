-- ===== src/Radar/Postings.antt =====
-- `_store_postings`, `_known_external_ids` and `_unscreened_postings` of
-- app/services/radar/poller.py: the rows of the postings that a poll writes and reads.
pub mod Rows
pub mod Ids
pub mod Keys
pub mod Fresh
pub mod Widths
pub mod Store
pub mod Screening
use ai_career_os.Common.{
  ℕ, zero, suc, ◌+◌, ◌-◌, ◌*◌, String, Bool, true, false, not, ◌&&◌, ◌||◌, Option, none, some, List,
  [], ◌∷◌, ◌++◌, map, ltb, leb, ◌==◌, str_eq, if◌then◌else◌, any, filter, find?, is_empty, length,
}
use ai_career_os.Common.Text.{truthy}
use ai_career_os.Common.Exec.{Result, ok, err, Exec, ◌>>=◌, ◌>>◌, pure}
use ai_career_os.Radar.Model.{PostingState, RawPosting, WatchedCompany, Posting, is_new}
use ai_career_os.Radar.Database.{Database, Session, change, flush}

-- The rows of a company.
abbrev pub of_company : ℕ → Posting → Bool
of_company company_id row = row.watched_company_id == company_id

unfoldable pub known_external_ids : ℕ → Database → List String
known_external_ids company_id db =
    map (λ row. row.external_id) (filter (of_company company_id) db.postings)

abbrev pub mem_str : String → List String → Bool
mem_str x = any (λ y. str_eq x y)

-- `_store_postings` on one item that is known: what it writes to the row
abbrev pub refresh : ℕ → RawPosting → Posting → Posting
refresh now item row = record row {
  last_seen_at = now;
  title = item.title;
  location = item.location;
  url = if truthy item.url then item.url else row.url;
}

abbrev pub refresh_row : ℕ → ℕ → RawPosting → Posting → Posting
refresh_row company_id now item row =
    if of_company company_id row && str_eq row.external_id item.external_id
    then refresh now item row
    else row

-- the row for an item that is not known
abbrev pub new_posting : ℕ → WatchedCompany → RawPosting → ℕ → Posting
new_posting now company item id = record {
  id = id;
  watched_company_id = company.id;
  profile_id = company.profile_id;
  external_id = item.external_id;
  url = item.url;
  title = item.title;
  location = item.location;
  remote_flag = item.remote_flag;
  description = item.description;
  posted_at = item.posted_at;
  raw_payload = if is_empty item.raw_payload then none else some item.raw_payload;
  screen_score = none;
  screen_reason = none;
  state = PostingState.new;
  job_id = none;
  first_seen_at = now;
  last_seen_at = now;
}

-- One round of the loop; `known` are the ids that were stored before it.
unfoldable pub store_item : ℕ → WatchedCompany → List String → RawPosting → Database → Database
store_item now company known item db =
    if mem_str item.external_id known
    then record db { postings = map (refresh_row company.id now item) db.postings }
    else record db {
      postings = db.postings ++ new_posting now company item db.next_id ∷ [];
      next_id = db.next_id + 1;
    }

unfoldable pub store_items :
    ℕ → WatchedCompany → List String → List RawPosting → Database → Database
unfolding store_item
store_items now company known [] db = db
store_items now company known (item ∷ rest) db =
    store_items now company known rest (store_item now company known item db)

abbrev pub is_fresh : List String → RawPosting → Bool
is_fresh known item = not (mem_str item.external_id known)

-- The value is the number of fresh rows.
unfoldable pub store_postings : ℕ → WatchedCompany → List RawPosting → Exec Session ℕ
unfolding store_items known_external_ids
store_postings now company [] s = (ok 0, s)
store_postings now company (item ∷ rest) s =
    let known = known_external_ids company.id s.rows in
    (do flush; pure (length (filter (is_fresh known) (item ∷ rest))))
      (change (store_items now company known (item ∷ rest)) s)

-- `ORDER BY first_seen_at ASC`
insert_by_age : Posting → List Posting → List Posting
insert_by_age p [] = p ∷ []
insert_by_age p (q ∷ qs) =
    let later = q ∷ insert_by_age p qs in
    if leb p.first_seen_at q.first_seen_at then p ∷ q ∷ qs else later

unfoldable pub oldest_first : List Posting → List Posting
unfolding insert_by_age
oldest_first [] = []
oldest_first (p ∷ ps) = insert_by_age p (oldest_first ps)

abbrev pub is_unscreened : ℕ → Posting → Bool
is_unscreened company_id row = of_company company_id row && is_new row.state

unfoldable pub unscreened_postings : ℕ → Database → List Posting
unfolding oldest_first
unscreened_postings company_id db = oldest_first (filter (is_unscreened company_id) db.postings)

-- The rows as the loop over `pending` leaves them, in their places.
abbrev pub written_over : List Posting → Posting → Posting
written_over held row = elim (find? (λ p. p.id == row.id) held) [ none ↦ row | some p ↦ p ]

unfoldable pub write_back : List Posting → Database → Database
write_back held db = record db { postings = map (written_over held) db.postings }
