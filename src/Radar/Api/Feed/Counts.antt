-- ===== src/Radar/Api/Feed/Counts.antt =====
-- The counts of `list_watched_companies` of app/api/radar.py: the groups of its query against the
-- counts of the table.

use mathlib.Core.Path.{ap₂}
use ai_career_os.Common.{
  ℕ, ◌+◌, ◌≡◌, refl, sym, ap, ◌∙◌, Bool, true, false, ◌&&◌, List, [], ◌∷◌, map, filter, is_empty,
  ◌==◌, if◌then◌else◌, Bool-cases, inl, inr, bit, count_if, arith,
}
use ai_career_os.Radar.Model.{Posting, Profile, WatchedCompany}
use ai_career_os.Radar.Database.{Database}
use ai_career_os.Radar.Api.{is_open}
use ai_career_os.Radar.Api.Feed.{
  PostingCount, count_posting, grouped, by_company, WatchedCompanyRead, to_read,
  list_watched_companies,
}

abbrev is_of : ℕ → Posting → Bool
is_of id row = row.watched_company_id == id

abbrev is_open_of : ℕ → Posting → Bool
is_open_of id row = row.watched_company_id == id && is_open row

by_company-hit :
    (id : ℕ) (group : PostingCount) (groups : List PostingCount)
    → (group.watched_company_id == id) ≡ true
    → by_company id (group ∷ groups) ≡ (group.posting_count, group.new_posting_count)
unfolding by_company
by_company-hit id group groups h = rw h refl

by_company-miss :
    (id : ℕ) (group : PostingCount) (groups : List PostingCount)
    → (group.watched_company_id == id) ≡ false
    → by_company id (group ∷ groups) ≡ by_company id groups
unfolding by_company
by_company-miss id group groups h = rw h refl

abbrev with_posting : ℕ → Posting → ℕ × ℕ → ℕ × ℕ
with_posting id row counts = (counts.0 + bit (is_of id row), counts.1 + bit (is_open_of id row))

with_posting-hit :
    (id : ℕ) (row : Posting) (m n : ℕ)
    → (row.watched_company_id == id) ≡ true
    → with_posting id row (m, n) ≡ (m + 1, n + bit (is_open row))
with_posting-hit id row m n h = rw h refl

with_posting-miss :
    (id : ℕ) (row : Posting) (counts : ℕ × ℕ)
    → (row.watched_company_id == id) ≡ false
    → with_posting id row counts ≡ counts
with_posting-miss id row counts h = rw h (ap₂ (λ (m n : ℕ). (m, n)) (omega arith) (omega arith))

count_posting-hit :
    (row : Posting) (group : PostingCount) (groups : List PostingCount)
    → (group.watched_company_id == row.watched_company_id) ≡ true
    → count_posting row (group ∷ groups)
      ≡ record group {
        posting_count = group.posting_count + 1;
        new_posting_count = group.new_posting_count + bit (is_open row);
      }
        ∷ groups
unfolding count_posting
count_posting-hit row group groups h = rw h refl

count_posting-miss :
    (row : Posting) (group : PostingCount) (groups : List PostingCount)
    → (group.watched_company_id == row.watched_company_id) ≡ false
    → count_posting row (group ∷ groups) ≡ group ∷ count_posting row groups
unfolding count_posting
count_posting-miss row group groups h = rw h refl

by_company-same :
    (id : ℕ) (row : Posting) (group : PostingCount) (groups : List PostingCount)
    → (group.watched_company_id == row.watched_company_id) ≡ true
    → by_company id (count_posting row (group ∷ groups))
      ≡ with_posting id row (by_company id (group ∷ groups))
by_company-same id row group groups h = elim (Bool-cases (group.watched_company_id == id)) [
  | inl e ↦
      ap (by_company id) (count_posting-hit row group groups h)
      ∙ by_company-hit id _ groups e
      ∙ sym (
          with_posting-hit id row group.posting_count group.new_posting_count
            (ground (arith, h, e)))
      ∙ ap (with_posting id row) (sym (by_company-hit id group groups e))
  | inr e ↦
      ap (by_company id) (count_posting-hit row group groups h)
      ∙ by_company-miss id _ groups e
      ∙ sym (by_company-miss id group groups e)
      ∙ sym (with_posting-miss id row _ (ground (arith, h, e)))
]

by_company-count_posting :
    (id : ℕ) (row : Posting) (groups : List PostingCount)
    → by_company id (count_posting row groups) ≡ with_posting id row (by_company id groups)
by_company-count_posting id row [] = elim (Bool-cases (row.watched_company_id == id)) [
  | inl e ↦
      unfold count_posting in
      by_company-hit id _ [] e
      ∙ sym (
          unfold by_company in
          with_posting-hit id row 0 0 e ∙ ap₂ (λ (m n : ℕ). (m, n)) refl (omega arith))
  | inr e ↦ unfold count_posting in by_company-miss id _ [] e ∙ sym (with_posting-miss id row _ e)
]
by_company-count_posting id row (group ∷ groups) =
    elim (Bool-cases (group.watched_company_id == row.watched_company_id)) [
      | inl e ↦ by_company-same id row group groups e
      | inr e ↦ elim (Bool-cases (group.watched_company_id == id)) [
        | inl k ↦
            ap (by_company id) (count_posting-miss row group groups e)
            ∙ by_company-hit id group _ k
            ∙ sym (by_company-hit id group groups k)
            ∙ sym (with_posting-miss id row _ (ground (arith, e, k)))
        | inr k ↦
            ap (by_company id) (count_posting-miss row group groups e)
            ∙ by_company-miss id group _ k
            ∙ by_company-count_posting id row groups
            ∙ ap (with_posting id row) (sym (by_company-miss id group groups k))
      ]
    ]

by_company-grouped :
    (id : ℕ) (rows : List Posting)
    → by_company id (grouped rows) ≡ (count_if (is_of id) rows, count_if (is_open_of id) rows)
unfolding grouped
by_company-grouped id [] = unfold by_company in refl
by_company-grouped id (row ∷ rows) =
    by_company-count_posting id row (grouped rows)
    ∙ ap (with_posting id row) (by_company-grouped id rows)
    ∙ ap₂ (λ (m n : ℕ). (m, n)) (omega arith) (omega arith)

count_if-filter :
    (p q : Posting → Bool) (rows : List Posting)
    → count_if p (filter q rows) ≡ count_if (λ row. q row && p row) rows
count_if-filter p q [] = refl
count_if-filter p q (row ∷ rows) = ground (arith, count_if-filter p q rows)

abbrev pub counted : WatchedCompany → ℕ → ℕ → WatchedCompanyRead
counted company m n = record { company = company; posting_count = m; new_posting_count = n }

-- a company with the numbers of its postings, and of those that are open, in the tables
abbrev pub with_counts : Profile → Database → WatchedCompany → WatchedCompanyRead
with_counts profile db company = record {
  company = company;
  posting_count =
      count_if (λ row. row.profile_id == profile.id && is_of company.id row) db.postings;
  new_posting_count =
      count_if (λ row. row.profile_id == profile.id && is_open_of company.id row) db.postings;
}

to_read-with_counts :
    (profile : Profile) (db : Database) (company : WatchedCompany)
    → to_read (grouped (filter (λ row. row.profile_id == profile.id) db.postings)) company
      ≡ with_counts profile db company
to_read-with_counts profile db company =
    let own = filter (λ row. row.profile_id == profile.id) db.postings in
    let counts = by_company-grouped company.id own in
    ap₂ (counted company) (ap (λ c. c.0) counts ∙ count_if-filter (is_of company.id) _ db.postings)
      (ap (λ c. c.1) counts ∙ count_if-filter (is_open_of company.id) _ db.postings)

map-with_counts :
    (profile : Profile) (db : Database) (companies : List WatchedCompany)
    → map (to_read (grouped (filter (λ row. row.profile_id == profile.id) db.postings))) companies
      ≡ map (with_counts profile db) companies
map-with_counts profile db [] = refl
map-with_counts profile db (company ∷ companies) =
    ap₂ (λ x xs. x ∷ xs) (to_read-with_counts profile db company)
      (map-with_counts profile db companies)

unless_none :
    (profile : Profile) (db : Database) (companies : List WatchedCompany)
    → (if is_empty companies
        then []
        else map
            (to_read (grouped (filter (λ row. row.profile_id == profile.id) db.postings)))
            companies)
      ≡ map (with_counts profile db) companies
unless_none profile db [] = refl
unless_none profile db (company ∷ companies) = map-with_counts profile db (company ∷ companies)

-- The companies of a profile are listed in the order of the database, each with the number of its
-- postings for the profile, and of those among them that are new or screened.
pub list_watched_companies-counts :
    (order_by_name : List WatchedCompany → List WatchedCompany) (profile : Profile) (db : Database)
    → list_watched_companies order_by_name profile db
      ≡ map
          (with_counts profile db)
          (order_by_name (filter (λ row. row.profile_id == profile.id) db.companies))
unfolding list_watched_companies
list_watched_companies-counts order_by_name profile db =
    unless_none profile db
      (order_by_name (filter (λ row. row.profile_id == profile.id) db.companies))
