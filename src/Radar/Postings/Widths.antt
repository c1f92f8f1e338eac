-- ===== src/Radar/Postings/Widths.antt =====
-- The widths of the columns of the postings (app/models/__init__.py) through `_store_postings` of
-- app/services/radar/poller.py.
use ai_career_os.Common.{
  ℕ, String, ◌≡◌, refl, Bool, true, false, ◌&&◌, Option, List, [], ◌∷◌, ◌++◌, map, all, and_true,
  arith, if◌then◌else◌, str_eq, Bool-cases, inl, inr,
}
use ai_career_os.Common.Text.{truthy}
use ai_career_os.Radar.Model.{RawPosting, WatchedCompany, Posting}
use ai_career_os.Radar.Database.{Database, fits_columns, fits_width, fits_optional}
use ai_career_os.Radar.Postings.{
  of_company, mem_str, refresh, refresh_row, new_posting, store_item, store_items,
}

-- a role whose texts are no wider than their columns
abbrev pub item_fits : RawPosting → Bool
item_fits item =
    fits_width 255 item.external_id
    && fits_optional 2048 item.url
    && fits_width 500 item.title
    && fits_optional 255 item.location

module _ (now : ℕ) (company : WatchedCompany) where
  either_url :
      (b : Bool) (new old : Option String)
      → fits_optional 2048 (if b then new else old)
        ≡ (if b then fits_optional 2048 new else fits_optional 2048 old)
  either_url true new old = refl
  either_url false new old = refl

  refreshed :
      (id new_id old_url new_url title location old_title old_location b : Bool) {url : Bool}
      → url ≡ (if b then new_url else old_url)
      → (new_id && new_url && title && location) ≡ true
      → (id && old_url && old_title && old_location) ≡ true
      → (id && url && title && location) ≡ true
  refreshed id new_id old_url new_url title location old_title old_location true e i h =
      rw e (ground (arith, i, h))
  refreshed id new_id old_url new_url title location old_title old_location false e i h =
      rw e (ground (arith, i, h))

  refresh-fits :
      (b : Bool) (item : RawPosting) (row : Posting)
      → item_fits item ≡ true
      → fits_columns row ≡ true
      → fits_columns (if b then refresh now item row else row) ≡ true
  refresh-fits false item row i h = h
  refresh-fits true item row i h =
      unfold fits_columns in
      refreshed (fits_width 255 row.external_id) (fits_width 255 item.external_id)
        (fits_optional 2048 row.url) (fits_optional 2048 item.url) (fits_width 500 item.title)
        (fits_optional 255 item.location) _ _ (truthy item.url)
        (either_url (truthy item.url) item.url row.url) i h

  refresh_all-fits :
      (item : RawPosting) (ps : List Posting)
      → item_fits item ≡ true
      → all fits_columns ps ≡ true
      → all fits_columns (map (refresh_row company.id now item) ps) ≡ true
  refresh_all-fits item [] i h = refl
  refresh_all-fits item (p ∷ ps) i h =
      let (first, later) = and_true (fits_columns p) (all fits_columns ps) h in
      rw
        (refresh-fits (of_company company.id p && str_eq p.external_id item.external_id) item p i
          first)
        (refresh_all-fits item ps i later)

  all-last :
      (p : Posting) (ps : List Posting)
      → all fits_columns ps ≡ true
      → fits_columns p ≡ true
      → all fits_columns (ps ++ p ∷ []) ≡ true
  all-last p [] h k = rw k refl
  all-last p (q ∷ ps) h k =
      let (first, later) = and_true (fits_columns q) (all fits_columns ps) h in
      rw first (all-last p ps later k)

  store_item-fits :
      (known : List String) (item : RawPosting) (db : Database)
      → item_fits item ≡ true
      → all fits_columns db.postings ≡ true
      → all fits_columns (store_item now company known item db).postings ≡ true
  unfolding store_item
  store_item-fits known item db i h = elim (Bool-cases (mem_str item.external_id known)) [
    | inl old ↦ rw old (refresh_all-fits item db.postings i h)
    | inr new ↦ rw new (
        all-last (new_posting now company item db.next_id) db.postings h (unfold fits_columns in i))
  ]

  pub store_items-fits :
      (known : List String) (items : List RawPosting) (db : Database)
      → all item_fits items ≡ true
      → all fits_columns db.postings ≡ true
      → all fits_columns (store_items now company known items db).postings ≡ true
  unfolding store_items
  store_items-fits known [] db i h = h
  store_items-fits known (item ∷ items) db i h =
      let (first, later) = and_true (item_fits item) (all item_fits items) i in
      store_items-fits known items (store_item now company known item db) later
        (store_item-fits known item db first h)
