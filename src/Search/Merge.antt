-- ===== src/Search/Merge.antt =====
-- `_merge_results` and `CompositeSearchClient.search` of app/services/search/composite.py.
use ai_career_os.Common.{
  ℕ, zero, suc, ◌+◌, ◌≤◌, String, ◌≡◌, refl, ap, Bool, true, false, not, ◌&&◌, List, [], ◌∷◌, arith,
  leb, length, flatten, All, Within, Bool-cases, inl, inr,
}
use mathlib.Core.Path.{ap₂}
use ai_career_os.Common.Exec.{Exception, Result, ok, err}
use ai_career_os.Search.{
  SearchResult, mem_url, merge_from, merge_results, SearchClient, safe_search, joined, gather,
  merged, search,
}

-- no key of the results is in the list, and none stands twice
abbrev pub all_fresh : (String → String) → List String → List SearchResult → Bool
all_fresh casefold seen [] = true
all_fresh casefold seen (r ∷ rest) =
    not (mem_url (casefold r.url) seen) && all_fresh casefold (casefold r.url ∷ seen) rest

leb-false : (a b : ℕ) → leb a b ≡ false → b + 1 ≤ a
leb-false a b e = ground (arith, e)

module _ (casefold : String → String) (max_results : ℕ) where
  merge_from-all_fresh :
      (seen : List String) (count : ℕ) (rs : List SearchResult)
      → all_fresh casefold seen (merge_from casefold max_results seen count rs) ≡ true
  unfolding merge_from
  merge_from-all_fresh seen count [] = refl
  merge_from-all_fresh seen count (r ∷ rs) = elim (Bool-cases (mem_url (casefold r.url) seen)) [
    | inl old ↦ rw old (merge_from-all_fresh seen count rs)
    | inr new ↦ elim (Bool-cases (leb max_results (count + 1))) [
      | inl enough ↦ rw (new, enough) (rw new refl)
      | inr more ↦
          rw (new, more) (rw new (merge_from-all_fresh (casefold r.url ∷ seen) (count + 1) rs))
    ]
  ]

  merge_from-Within :
      (seen : List String) (count : ℕ) (rs : List SearchResult)
      → Within (merge_from casefold max_results seen count rs) rs
  unfolding merge_from
  merge_from-Within seen count [] p = omega arith
  merge_from-Within seen count (r ∷ rs) p = elim (Bool-cases (mem_url (casefold r.url) seen)) [
    | inl old ↦ rw old (omega (arith, merge_from-Within seen count rs p))
    | inr new ↦ elim (Bool-cases (leb max_results (count + 1))) [
      | inl enough ↦ rw (new, enough) (omega arith)
      | inr more ↦
          rw (new, more) (omega (arith, merge_from-Within (casefold r.url ∷ seen) (count + 1) rs p))
    ]
  ]

  -- at most one result more than there is room for
  merge_from-le :
      (seen : List String) (count : ℕ) (rs : List SearchResult) (room : ℕ)
      → max_results ≤ count + room
      → 1 ≤ room
      → length (merge_from casefold max_results seen count rs) ≤ room
  unfolding merge_from
  merge_from-le seen count [] room h k = omega (arith, k)
  merge_from-le seen count (r ∷ rs) zero h k = absurd (omega (arith, k))
  merge_from-le seen count (r ∷ rs) (suc room) h k =
      elim (Bool-cases (mem_url (casefold r.url) seen)) [
        | inl old ↦ rw old (merge_from-le seen count rs (suc room) h k)
        | inr new ↦ elim (Bool-cases (leb max_results (count + 1))) [
          | inl enough ↦ rw (new, enough) k
          | inr more ↦
              rw (new, more)
                (omega (
                  arith,
                  merge_from-le (casefold r.url ∷ seen) (count + 1) rs room (omega (arith, h))
                      (omega (arith, h, leb-false max_results (count + 1) more)),
                ))
        ]
      ]

  -- Where at least one result is asked for, the merged list has at most as many, no two of them
  -- have the same URL up to case, and they are results of the batches, none more often than there.
  pub merge_results-lem :
      (batches : List (List SearchResult))
      → 1 ≤ max_results
      → (length (merge_results casefold max_results batches) ≤ max_results)
        × (all_fresh casefold [] (merge_results casefold max_results batches) ≡ true)
        × Within (merge_results casefold max_results batches) (flatten batches)
  unfolding merge_results
  merge_results-lem batches h = (
    merge_from-le [] 0 (flatten batches) max_results (omega arith) h,
    merge_from-all_fresh [] 0 (flatten batches),
    merge_from-Within [] 0 (flatten batches),
  )

-- A provider that raises nothing but `SearchError`.
abbrev pub is_search_error : Exception → Bool
is_search_error (Exception.search_error m) = true
is_search_error _ = false

abbrev pub Answers : String → ℕ → SearchClient → Type 0
Answers query max_results client =
    (e : Exception) → client query max_results ≡ err e → is_search_error e ≡ true

safe_search-ok :
    (answer : Result (List SearchResult))
    → ((e : Exception) → answer ≡ err e → is_search_error e ≡ true)
    → (results : List SearchResult) × (safe_search answer ≡ ok results)
safe_search-ok (ok results) h = (results, refl)
safe_search-ok (err (Exception.search_error m)) h = ([], refl)
safe_search-ok (err (Exception.llm_configuration m)) h =
    absurd (cc (h (Exception.llm_configuration m) refl))
safe_search-ok (err (Exception.llm_error m)) h = absurd (cc (h (Exception.llm_error m) refl))
safe_search-ok (err (Exception.value_error m)) h = absurd (cc (h (Exception.value_error m) refl))
safe_search-ok (err (Exception.board_not_found m)) h =
    absurd (cc (h (Exception.board_not_found m) refl))
safe_search-ok (err (Exception.ats_error m)) h = absurd (cc (h (Exception.ats_error m) refl))
safe_search-ok (err (Exception.integrity_error m)) h =
    absurd (cc (h (Exception.integrity_error m) refl))
safe_search-ok (err (Exception.already_promoted i)) h =
    absurd (cc (h (Exception.already_promoted i) refl))
safe_search-ok (err (Exception.http_exception c m)) h =
    absurd (cc (h (Exception.http_exception c m) refl))
safe_search-ok (err (Exception.other m)) h = absurd (cc (h (Exception.other m) refl))

gather-ok :
    (query : String) (max_results : ℕ) (clients : List SearchClient)
    → All (Answers query max_results) clients
    → (batches : List (List SearchResult)) × (gather clients query max_results ≡ ok batches)
unfolding gather joined
gather-ok query max_results [] h = ([], refl)
gather-ok query max_results (client ∷ clients) h =
    let (results, first) = safe_search-ok (client query max_results) h.0 in
    let (rest, others) = gather-ok query max_results clients h.1 in
    (results ∷ rest, ap₂ joined first others)

-- If every provider answers or raises `SearchError`, and at least one result is asked for, the
-- search returns, and gives at most as many results as are asked for, no two of them with the same
-- URL up to case.
pub search-returns :
    (casefold : String → String) (clients : List SearchClient) (query : String) (max_results : ℕ)
    → All (Answers query max_results) clients
    → 1 ≤ max_results
    → (results : List SearchResult) × (search casefold clients query max_results ≡ ok results)
      × (length results ≤ max_results)
      × (all_fresh casefold [] results ≡ true)
unfolding search
search-returns casefold clients query max_results h positive =
    let (batches, gathered) = gather-ok query max_results clients h in
    let (short, fresh, within) = merge_results-lem casefold max_results batches positive in
    (
      merge_results casefold max_results batches,
      ap (merged casefold max_results) gathered,
      short,
      fresh,
    )
