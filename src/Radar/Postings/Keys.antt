-- ===== src/Radar/Postings/Keys.antt =====
-- The unique key (company, external id) of the postings, through `_store_postings`.
use ai_career_os.Common.{
  ℕ, String, ◌≡◌, refl, ap, sym, ◌∙◌, Bool, true, false, not, ◌&&◌, ◌||◌, List, [], ◌∷◌, ◌++◌, map,
  arith, if◌then◌else◌, ◌==◌, str_eq, Bool-cases, inl, inr, any, All, filter, eq_iff, append-nil,
  append_assoc,
}
use mathlib.Core.Path.{ap₂}
use mathlib.Core.List.{map-append}
use ai_career_os.Radar.Model.{RawPosting, WatchedCompany, Posting}
use ai_career_os.Radar.Database.{Database, same_key, unique_keys}
use ai_career_os.Radar.Postings.{
  known_external_ids, of_company, mem_str, refresh, refresh_row, new_posting, store_item,
  store_items, is_fresh,
}

abbrev pub Key : Type 0
Key = ℕ × String

abbrev pub key : Posting → Key
key p = (p.watched_company_id, p.external_id)

abbrev pub eq_key : Key → Key → Bool
eq_key a b = a.0 == b.0 && str_eq a.1 b.1

abbrev nodup : List Key → Bool
nodup [] = true
nodup (k ∷ ks) = not (any (eq_key k) ks) && nodup ks

abbrev pub distinct : List String → Bool
distinct [] = true
distinct (x ∷ xs) = not (mem_str x xs) && distinct xs

-- the external ids of the items that are not known, in order
abbrev pub fresh_ids : List String → List RawPosting → List String
fresh_ids known items = map (λ item. item.external_id) (filter (is_fresh known) items)

any-keys :
    (p : Posting) (ps : List Posting) → any (same_key p) ps ≡ any (eq_key (key p)) (map key ps)
any-keys p [] = refl
any-keys p (q ∷ qs) = ap (λ b. same_key p q || b) (any-keys p qs)

unique_keys-nodup : (ps : List Posting) → unique_keys ps ≡ nodup (map key ps)
unfolding unique_keys
unique_keys-nodup [] = refl
unique_keys-nodup (p ∷ ps) = rw (any-keys p ps, unique_keys-nodup ps)

-- the unique key looks at the keys alone
pub unique_keys-same :
    (ps qs : List Posting) → map key ps ≡ map key qs → unique_keys ps ≡ unique_keys qs
unique_keys-same ps qs h = unique_keys-nodup ps ∙ ap nodup h ∙ sym (unique_keys-nodup qs)

any-append :
    (k : Key) (xs ys : List Key)
    → any (eq_key k) (xs ++ ys) ≡ (any (eq_key k) xs || any (eq_key k) ys)
any-append k [] ys = refl
any-append k (x ∷ xs) ys = ground (arith, any-append k xs ys)

-- no key of the first list stands in the second
abbrev apart : List Key → List Key → Bool
apart [] ys = true
apart (x ∷ xs) ys = not (any (eq_key x) ys) && apart xs ys

nodup-append : (xs ys : List Key) → nodup (xs ++ ys) ≡ (nodup xs && (nodup ys && apart xs ys))
nodup-append [] ys = ground arith
nodup-append (x ∷ xs) ys = ground (arith, nodup-append xs ys, any-append x xs ys)

and-true : (b : Bool) → (b && true) ≡ b
and-true b = ground arith

module _ (now : ℕ) (company : WatchedCompany) where
  fresh_keys : List String → List Key
  fresh_keys = map (λ x. (company.id, x))

  refresh-key :
      (b : Bool) (item : RawPosting) (row : Posting)
      → key (if b then refresh now item row else row) ≡ key row
  refresh-key true item row = refl
  refresh-key false item row = refl

  refresh_keys :
      (item : RawPosting) (rows : List Posting)
      → map key (map (refresh_row company.id now item) rows) ≡ map key rows
  refresh_keys item [] = refl
  refresh_keys item (r ∷ rows) =
      ap₂ ◌∷◌
        (refresh-key (of_company company.id r && str_eq r.external_id item.external_id) item r)
        (refresh_keys item rows)

  append_key :
      (item : RawPosting) (id : ℕ) (rows : List Posting)
      → map key (rows ++ new_posting now company item id ∷ [])
        ≡ map key rows ++ (company.id, item.external_id) ∷ []
  append_key item id [] = refl
  append_key item id (r ∷ rows) = ap (◌∷◌ (key r)) (append_key item id rows)

  store_item-keys :
      (known : List String) (item : RawPosting) (db : Database)
      → map key (store_item now company known item db).postings
        ≡ map key db.postings ++ fresh_keys (fresh_ids known (item ∷ []))
  unfolding store_item fresh_keys
  store_item-keys known item db = elim (Bool-cases (mem_str item.external_id known)) [
    | inl old ↦ rw old (refresh_keys item db.postings ∙ sym (append-nil (map key db.postings)))
    | inr new ↦ rw new (append_key item db.next_id db.postings)
  ]

  fresh_ids-cons :
      (known : List String) (item : RawPosting) (items : List RawPosting)
      → fresh_ids known (item ∷ items) ≡ fresh_ids known (item ∷ []) ++ fresh_ids known items
  fresh_ids-cons known item items = elim (Bool-cases (is_fresh known item)) [
    | inl new ↦ rw new
    | inr old ↦ rw old
  ]

  fresh_keys-append : (xs ys : List String) → fresh_keys (xs ++ ys) ≡ fresh_keys xs ++ fresh_keys ys
  unfolding fresh_keys
  fresh_keys-append xs ys = map-append (λ (x : String). (company.id, x)) xs ys

  store_items-keys :
      (known : List String) (items : List RawPosting) (db : Database)
      → map key (store_items now company known items db).postings
        ≡ map key db.postings ++ fresh_keys (fresh_ids known items)
  unfolding store_items
  store_items-keys known [] db = unfold fresh_keys in sym (append-nil (map key db.postings))
  store_items-keys known (item ∷ items) db =
      store_items-keys known items (store_item now company known item db)
      ∙ ap (λ ks. ks ++ fresh_keys (fresh_ids known items)) (store_item-keys known item db)
      ∙ append_assoc (map key db.postings) _ _
      ∙ ap (λ ks. map key db.postings ++ ks)
          (sym (fresh_keys-append (fresh_ids known (item ∷ [])) (fresh_ids known items))
            ∙ ap fresh_keys (sym (fresh_ids-cons known item items)))

  any-fresh_keys :
      (x : String) (xs : List String) → any (eq_key (company.id, x)) (fresh_keys xs) ≡ mem_str x xs
  unfolding fresh_keys
  any-fresh_keys x [] = refl
  any-fresh_keys x (y ∷ ys) = ground (arith, any-fresh_keys x ys)

  nodup-fresh_keys : (xs : List String) → nodup (fresh_keys xs) ≡ distinct xs
  unfolding fresh_keys
  nodup-fresh_keys [] = refl
  nodup-fresh_keys (x ∷ xs) = ap₂ (λ a b. not a && b) (any-fresh_keys x xs) (nodup-fresh_keys xs)

  -- a row does not clash with the keys of ids that its company does not know
  row_apart :
      (row : Posting) (rows : List Posting) (xs : List String)
      → All
          (λ x.
            mem_str x (map (λ r. r.external_id) (filter (of_company company.id) (row ∷ rows)))
            ≡ false)
          xs
      → any (eq_key (key row)) (fresh_keys xs) ≡ false
  unfolding fresh_keys
  row_apart row rows [] h = refl
  row_apart row rows (x ∷ xs) h =
      ground (arith, row_apart row rows xs h.1, eq_iff x row.external_id, eq_iff row.external_id x)

  ids_of : List Posting → List String
  ids_of rows = map (λ r. r.external_id) (filter (of_company company.id) rows)

  Unknown : List Posting → List String → Type 0
  Unknown rows = All (λ x. mem_str x (ids_of rows) ≡ false)

  Unknown-tail :
      (row : Posting) (rows : List Posting) (xs : List String)
      → Unknown (row ∷ rows) xs
      → Unknown rows xs
  unfolding Unknown ids_of
  Unknown-tail row rows [] h = tt
  Unknown-tail row rows (x ∷ xs) h = (ground (arith, h.0), Unknown-tail row rows xs h.1)

  rows_apart :
      (rows : List Posting) (xs : List String)
      → Unknown rows xs
      → apart (map key rows) (fresh_keys xs) ≡ true
  rows_apart [] xs h = refl
  rows_apart (row ∷ rows) xs h =
      rw (row_apart row rows xs (unfold Unknown ids_of in h))
        (rows_apart rows xs (Unknown-tail row rows xs h))

  fresh_ids-Unknown :
      (known : List String) (items : List RawPosting)
      → All (λ x. mem_str x known ≡ false) (fresh_ids known items)
  fresh_ids-Unknown known [] = tt
  fresh_ids-Unknown known (item ∷ items) = elim (Bool-cases (mem_str item.external_id known)) [
    | inl old ↦ rw old (fresh_ids-Unknown known items)
    | inr new ↦ rw new (new, fresh_ids-Unknown known items)
  ]

  -- After the loop the unique key holds exactly when it held before and the new ids are distinct.
  pub unique-store_items :
      (items : List RawPosting) (db : Database)
      → let known = known_external_ids company.id db in
        unique_keys (store_items now company known items db).postings
        ≡ (unique_keys db.postings && distinct (fresh_ids known items))
  unique-store_items items db =
      let known = known_external_ids company.id db in
      let fresh = fresh_ids known items in
      unique_keys-nodup (store_items now company known items db).postings
      ∙ ap nodup (store_items-keys known items db)
      ∙ nodup-append (map key db.postings) (fresh_keys fresh)
      ∙ ap₂ (λ a b. a && b) (sym (unique_keys-nodup db.postings))
          (ap₂ (λ a b. a && b) (nodup-fresh_keys fresh)
              (rows_apart db.postings fresh (
                unfold Unknown ids_of known_external_ids in
                fresh_ids-Unknown (ids_of db.postings) items))
            ∙ and-true (distinct fresh))
