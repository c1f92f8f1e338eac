-- ===== src/Radar/Api/Feed.antt =====
-- `list_postings` and `list_watched_companies` of app/api/radar.py: the feed of a profile, and its
-- companies with the counts of their postings.
pub mod Ranking
pub mod Counts
use ai_career_os.Common.{
  ℕ, suc, ◌+◌, String, Bool, true, false, ◌&&◌, ◌||◌, Option, none, some, List, [], ◌∷◌, ◌++◌, map,
  take, ltb, leb, ◌==◌, str_eq, if◌then◌else◌, any, filter, is_empty, bit, flatten,
}
use ai_career_os.Radar.Model.{Posting, PostingState, Profile, WatchedCompany}
use ai_career_os.Radar.Database.{Database, find_company}
use ai_career_os.Radar.Api.{is_open}

-- The query parameters; FastAPI keeps `min_score` within 0 and 100 and `limit` within 1 and 500.
pub record PostingQuery : Type 0 where
  pub state : Option (List String)
  pub min_score : Option ℕ
  pub company_id : Option ℕ
  pub limit : ℕ

-- A posting as it is answered, with the name of its company.
pub record PostingRead : Type 0 where
  pub posting : Posting
  pub company_name : String

-- the text of the column `state`
abbrev pub state_text : PostingState → String
state_text PostingState.new = "new"
state_text PostingState.screened = "screened"
state_text PostingState.promoted = "promoted"
state_text PostingState.dismissed = "dismissed"

-- `if state: ... else: ...`
abbrev pub has_state : Option (List String) → Posting → Bool
has_state none row = is_open row
has_state (some []) row = is_open row
has_state (some (x ∷ xs)) row = any (λ y. str_eq (state_text row.state) y) (x ∷ xs)

-- `Posting.screen_score >= min_score`, which NULL does not satisfy
abbrev pub has_score : Option ℕ → Posting → Bool
has_score none row = true
has_score (some least) row = elim row.screen_score [ none ↦ false | some score ↦ leb least score ]

abbrev pub has_company : Option ℕ → Posting → Bool
has_company none row = true
has_company (some id) row = row.watched_company_id == id

abbrev pub is_asked_for : PostingQuery → Profile → Posting → Bool
is_asked_for query profile row =
    row.profile_id == profile.id
    && has_state query.state row
    && has_score query.min_score row
    && has_company query.company_id row

-- `join(WatchedCompany, ...)`, by the primary key
abbrev pub with_name : Database → Posting → List PostingRead
with_name db row = elim (find_company row.watched_company_id db) [
  | none ↦ []
  | some company ↦ record { posting = row; company_name = company.name } ∷ []
]

unfoldable pub matching : PostingQuery → Profile → Database → List PostingRead
matching query profile db =
    flatten (map (with_name db) (filter (is_asked_for query profile) db.postings))

-- above every score, for a row with a score, and 0 for one without: `nulls_last(... .desc())`
abbrev pub score_rank : Option ℕ → ℕ
score_rank none = 0
score_rank (some score) = suc score

-- `order_by(nulls_last(Posting.screen_score.desc()), Posting.first_seen_at.desc())`
abbrev pub comes_first : PostingRead → PostingRead → Bool
comes_first p q =
    ltb (score_rank q.posting.screen_score) (score_rank p.posting.screen_score)
    || (score_rank p.posting.screen_score == score_rank q.posting.screen_score
        && leb q.posting.first_seen_at p.posting.first_seen_at)

unfoldable pub insert_ranked : PostingRead → List PostingRead → List PostingRead
insert_ranked p [] = p ∷ []
insert_ranked p (q ∷ qs) =
    let later = q ∷ insert_ranked p qs in if comes_first p q then p ∷ q ∷ qs else later

unfoldable pub ranked : List PostingRead → List PostingRead
unfolding insert_ranked
ranked [] = []
ranked (p ∷ ps) = insert_ranked p (ranked ps)

unfoldable pub list_postings : PostingQuery → Profile → Database → List PostingRead
unfolding ranked matching
list_postings query profile db = take query.limit (ranked (matching query profile db))

-- A row of the query that counts: the company, its postings, and those of them that are open.
pub record PostingCount : Type 0 where
  pub watched_company_id : ℕ
  pub posting_count : ℕ
  pub new_posting_count : ℕ

-- `group_by(Posting.watched_company_id)`: one posting more
unfoldable pub count_posting : Posting → List PostingCount → List PostingCount
count_posting row [] =
    record {
      watched_company_id = row.watched_company_id;
      posting_count = 1;
      new_posting_count = bit (is_open row);
    }
    ∷ []
count_posting row (group ∷ groups) =
    let later = group ∷ count_posting row groups in
    if group.watched_company_id == row.watched_company_id
    then record group {
      posting_count = group.posting_count + 1;
      new_posting_count = group.new_posting_count + bit (is_open row);
    }
      ∷ groups
    else later

unfoldable pub grouped : List Posting → List PostingCount
unfolding count_posting
grouped [] = []
grouped (row ∷ rows) = count_posting row (grouped rows)

-- `by_company.get(company.id, (0, 0))`
unfoldable pub by_company : ℕ → List PostingCount → ℕ × ℕ
by_company id [] = (0, 0)
by_company id (group ∷ groups) =
    let rest = by_company id groups in
    if group.watched_company_id == id then (group.posting_count, group.new_posting_count) else rest

-- `_to_read`; the answer is the row with its counts
pub record WatchedCompanyRead : Type 0 where
  pub company : WatchedCompany
  pub posting_count : ℕ
  pub new_posting_count : ℕ

abbrev pub to_read : List PostingCount → WatchedCompany → WatchedCompanyRead
to_read groups company = record {
  company = company;
  posting_count = (by_company company.id groups).0;
  new_posting_count = (by_company company.id groups).1;
}

-- `order_by_name` is the order of the database on names, its collation.
unfoldable pub list_watched_companies :
    (List WatchedCompany → List WatchedCompany) → Profile → Database → List WatchedCompanyRead
unfolding grouped by_company
list_watched_companies order_by_name profile db =
    let companies = order_by_name (filter (λ row. row.profile_id == profile.id) db.companies) in
    if is_empty companies
    then []
    else map (to_read (grouped (filter (λ row. row.profile_id == profile.id) db.postings)))
        companies
