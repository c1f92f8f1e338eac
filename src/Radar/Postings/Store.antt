-- ===== src/Radar/Postings/Store.antt =====
-- `_store_postings` of app/services/radar/poller.py.
use ai_career_os.Common.{
  ℕ, suc, String, ◌≡◌, refl, ap, ◌∙◌, Bool, true, false, ◌&&◌, List, [], ◌∷◌, all, not, arith,
  if◌then◌else◌, str_eq, Bool-cases, inl, inr, filter, length, if_true, if_false, All-append,
}
use ai_career_os.Common.Exec.{
  integrity_error, Exception, Result, ok, err, pure, ◌>>◌, >>=-ok, >>=-err,
}
use ai_career_os.Radar.Model.{RawPosting, WatchedCompany, Posting}
use ai_career_os.Radar.Database.{
  Database, Session, unique_keys, flush, change, fits_columns, data_error,
}
use ai_career_os.Radar.Postings.{
  known_external_ids, of_company, mem_str, refresh, refresh_row, new_posting, store_item,
  store_items, store_postings, is_fresh,
}
use ai_career_os.Radar.Postings.Widths.{item_fits, store_items-fits}
use ai_career_os.Radar.Postings.Keys.{distinct, fresh_ids, unique-store_items}
use ai_career_os.Radar.Postings.Ids.{
  KeepsAll, HasIds, KeepsAll-Evolved, map-AllBelow, map-distinct_ids, AllBelow-suc,
  append-distinct_ids,
}
use ai_career_os.Radar.Postings.Rows.{
  Keeps, Evolved, Evolved-refl, Evolved-trans, Evolved-append, Keeps-refl, IsTable,
}

module _ (now : ℕ) (company : WatchedCompany) where
  refresh-Keeps :
      (b : Bool) (item : RawPosting) (row : Posting)
      → Keeps row (if b then refresh now item row else row)
  refresh-Keeps false item row = Keeps-refl row
  refresh-Keeps true item row = record {
    same_id = refl;
    same_company = refl;
    same_external_id = refl;
    same_job = refl;
    same_age = refl;
    decided = inl (refl, refl, refl);
  }

  refresh-KeepsAll :
      (item : RawPosting) (ps : List Posting) → KeepsAll (refresh_row company.id now item) ps
  refresh-KeepsAll item [] = tt
  refresh-KeepsAll item (p ∷ ps) = (
    refresh-Keeps (of_company company.id p && str_eq p.external_id item.external_id) item p,
    refresh-KeepsAll item ps,
  )

  store_item-Evolved :
      (known : List String) (item : RawPosting) (db : Database)
      → Evolved db.postings (store_item now company known item db).postings
  unfolding store_item
  store_item-Evolved known item db = elim (Bool-cases (mem_str item.external_id known)) [
    | inl old ↦ rw old (
        KeepsAll-Evolved (refresh_row company.id now item) db.postings
          (refresh-KeepsAll item db.postings))
    | inr new ↦
        rw new
          (Evolved-append db.postings (new_posting now company item db.next_id ∷ []) (refl, tt))
  ]

  pub store_items-Evolved :
      (known : List String) (items : List RawPosting) (db : Database)
      → Evolved db.postings (store_items now company known items db).postings
  unfolding store_items
  store_items-Evolved known [] db = Evolved-refl db.postings
  store_items-Evolved known (item ∷ items) db =
      Evolved-trans db.postings (store_item-Evolved known item db)
        (store_items-Evolved known items (store_item now company known item db))

  store_item-HasIds :
      (known : List String) (item : RawPosting) (db : Database)
      → HasIds db
      → HasIds (store_item now company known item db)
  unfolding store_item
  store_item-HasIds known item db h = elim (Bool-cases (mem_str item.external_id known)) [
    | inl old ↦ rw old (
      map-distinct_ids (refresh_row company.id now item) db.postings
            (refresh-KeepsAll item db.postings)
          ∙ h.0,
      map-AllBelow (refresh_row company.id now item) db.next_id db.postings
          (refresh-KeepsAll item db.postings) h.1,
    )
    | inr new ↦ rw new (
      append-distinct_ids (new_posting now company item db.next_id) db.postings h.1 h.0,
      All-append _ db.postings _ (AllBelow-suc db.next_id db.postings h.1) (omega arith, tt),
    )
  ]

  pub store_items-HasIds :
      (known : List String) (items : List RawPosting) (db : Database)
      → HasIds db
      → HasIds (store_items now company known items db)
  unfolding store_items
  store_items-HasIds known [] db h = h
  store_items-HasIds known (item ∷ items) db h =
      store_items-HasIds known items (store_item now company known item db)
        (store_item-HasIds known item db h)

  store_item-companies :
      (known : List String) (item : RawPosting) (db : Database)
      → (store_item now company known item db).companies ≡ db.companies
  unfolding store_item
  store_item-companies known item db = elim (Bool-cases (mem_str item.external_id known)) [
    | inl old ↦ rw old
    | inr new ↦ rw new
  ]

  pub companies-store_items :
      (known : List String) (items : List RawPosting) (db : Database)
      → (store_items now company known items db).companies ≡ db.companies
  unfolding store_items
  companies-store_items known [] db = refl
  companies-store_items known (item ∷ items) db =
      companies-store_items known items (store_item now company known item db)
      ∙ store_item-companies known item db

  length-fresh_ids :
      (known : List String) (items : List RawPosting)
      → length (filter (is_fresh known) items) ≡ length (fresh_ids known items)
  length-fresh_ids known [] = refl
  length-fresh_ids known (item ∷ items) = elim (Bool-cases (mem_str item.external_id known)) [
    | inl old ↦ rw old (length-fresh_ids known items)
    | inr new ↦ rw new (ap suc (length-fresh_ids known items))
  ]

  pub unique_after :
      (items : List RawPosting) (db : Database)
      → IsTable db
      → unique_keys (store_items now company (known_external_ids company.id db) items db).postings
        ≡ distinct (fresh_ids (known_external_ids company.id db) items)
  unique_after items db table =
      unique-store_items now company items db
      ∙ ap (λ b. b && distinct (fresh_ids (known_external_ids company.id db) items)) table.unique

  -- what a flush of `s` makes of the value `n`, from the two constraints
  abbrev pub flushed : Bool → Bool → ℕ → Session → Result ℕ × Session
  flushed fits unique n s =
      if fits
      then if unique then (ok n, s) else (
        err (integrity_error "uq_postings_company_external_id"),
        record s { rows = s.saved; needs_rollback = true },
      )
      else (err data_error, record s { rows = s.saved; needs_rollback = true })

  flush-if :
      (n : ℕ) (s : Session) (fits unique : Bool)
      → all fits_columns s.rows.postings ≡ fits
      → unique_keys s.rows.postings ≡ unique
      → (do flush; pure n) s ≡ flushed fits unique n s
  unfolding flush
  flush-if n s true true f u = >>=-ok flush (λ _. pure n) s (if_true _ _ f ∙ if_true _ _ u)
  flush-if n s true false f u = >>=-err flush (λ _. pure n) s (if_true _ _ f ∙ if_false _ _ u)
  flush-if n s false true f u = >>=-err flush (λ _. pure n) s (if_false _ _ f)
  flush-if n s false false f u = >>=-err flush (λ _. pure n) s (if_false _ _ f)

  pub store_postings-eq :
      (items : List RawPosting) (s : Session)
      → IsTable s.rows
      → let known = known_external_ids company.id s.rows in
        let rows' = store_items now company known items s.rows in
        store_postings now company items s
        ≡ flushed
            (all fits_columns rows'.postings)
            (distinct (fresh_ids known items))
            (length (fresh_ids known items))
            (record s { rows = rows' })
  store_postings-eq [] s table = unfold store_postings store_items in rw table.fits refl
  store_postings-eq (item ∷ items) s table =
      let known = known_external_ids company.id s.rows in
      unfold store_postings in
      (flush-if (length (filter (is_fresh known) (item ∷ items)))
          (change (store_items now company known (item ∷ items)) s) _
          (distinct (fresh_ids known (item ∷ items))) refl
          (unique_after (item ∷ items) s.rows table)
        ∙ ap
            (λ (n : ℕ).
              flushed
                (all fits_columns (store_items now company known (item ∷ items) s.rows).postings)
                (distinct (fresh_ids known (item ∷ items))) n
                (change (store_items now company known (item ∷ items)) s))
            (length-fresh_ids known (item ∷ items)))

  flushed-twice :
      (fits unique : Bool) (n : ℕ) (s : Session)
      → unique ≡ false
      → (x : Exception) × (flushed fits unique n s
          ≡ (err x, record s { rows = s.saved; needs_rollback = true }))
  flushed-twice true unique n s e = (_, if_false _ _ e)
  flushed-twice false unique n s e = (_, refl)

  -- where a new id stands twice, it raises
  pub store_postings-twice :
      (items : List RawPosting) (s : Session)
      → IsTable s.rows
      → distinct (fresh_ids (known_external_ids company.id s.rows) items) ≡ false
      → (x : Exception) × (store_postings now company items s
          ≡ (err x, record s { rows = s.saved; needs_rollback = true }))
  store_postings-twice items s table twice =
      let (x, e) = flushed-twice _ _ _ _ twice in (x, store_postings-eq items s table ∙ e)

  fits_if :
      (items : List RawPosting) (s : Session)
      → IsTable s.rows
      → let rows' = store_items now company (known_external_ids company.id s.rows) items s.rows in
        (all item_fits items && not (all fits_columns rows'.postings)) ≡ false
  fits_if items s table = elim (Bool-cases (all item_fits items)) [
    | inl fit ↦
        rw
          (store_items-fits now company (known_external_ids company.id s.rows) items s.rows fit
            table.fits)
          (ground arith)
    | inr wide ↦ rw wide refl
  ]

  -- For any session over tables in order and any roles of a board: if the texts of the rows fit
  -- their columns afterwards, and the external ids that are new are distinct, storing them returns
  -- how many there are, and the tables are in order again; if the texts fit and an id stands twice,
  -- it raises IntegrityError; if one does not fit, DataError. Where it raises, the session has lost
  -- every change since its last commit. The texts of the rows fit if those of the roles do. Each stored row is where it was, with its job, and with its
  -- state and score; rows that are added have no job.
  pub store_postings-upsert :
      (items : List RawPosting) (s : Session)
      → IsTable s.rows
      → let known = known_external_ids company.id s.rows in
        let rows' = store_items now company known items s.rows in
        (store_postings now company items s ≡ (
          if all fits_columns rows'.postings
          then if distinct (fresh_ids known items)
            then (ok (length (fresh_ids known items)), record s { rows = rows' })
            else (
              err (integrity_error "uq_postings_company_external_id"),
              record s { rows = s.saved; needs_rollback = true },
            )
          else (err data_error, record s { rows = s.saved; needs_rollback = true })))
        × ((all item_fits items && not (all fits_columns rows'.postings)) ≡ false)
        × Evolved s.rows.postings rows'.postings
        × (unique_keys rows'.postings ≡ distinct (fresh_ids known items))
        × HasIds rows'
  store_postings-upsert items s table = (
    store_postings-eq items s table,
    fits_if items s table,
    store_items-Evolved (known_external_ids company.id s.rows) items s.rows,
    unique_after items s.rows table,
    store_items-HasIds (known_external_ids company.id s.rows) items s.rows
        (table.primary, table.below),
  )
