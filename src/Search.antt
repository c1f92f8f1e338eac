-- ===== src/Search.antt =====
-- app/services/search/composite.py: several search providers, asked at once, and their results
-- merged. A provider is a function; the order in which the answers arrive does not matter, since
-- `asyncio.gather` gives them in the order of the providers.
pub mod Merge
mod Tests
use ai_career_os.Common.{
  ℕ, suc, ◌+◌, String, Bool, true, false, ◌||◌, Option, List, [], ◌∷◌, ◌++◌, leb, str_eq,
  if◌then◌else◌, any, flatten,
}
use ai_career_os.Common.Exec.{Exception, Result, ok, err}

pub record SearchResult : Type 0 where
  pub title : String
  pub url : String
  pub snippet : String

abbrev pub mem_url : String → List String → Bool
mem_url x = any (λ y. str_eq x y)

-- `str.casefold` is a parameter.
module _ (casefold : String → String) (max_results : ℕ) where
  -- The two loops of `_merge_results`, which run over the batches one after the other, with
  -- `seen_urls` and the length of `merged`; `return merged` ends both.
  unfoldable pub merge_from : List String → ℕ → List SearchResult → List SearchResult
  merge_from seen count [] = []
  merge_from seen count (result ∷ rest) =
      let key = casefold result.url in
      let skipped = merge_from seen count rest in
      let more = merge_from (key ∷ seen) (count + 1) rest in
      if mem_url key seen
      then skipped
      else if leb max_results (count + 1)
      then result ∷ []
      else result ∷ more

  unfoldable pub merge_results : List (List SearchResult) → List SearchResult
  unfolding merge_from
  merge_results batches = merge_from [] 0 (flatten batches)

-- A provider: its answer to a query and a number of results.
abbrev pub SearchClient : Type 0
SearchClient = String → ℕ → Result (List SearchResult)

-- `except SearchError`: no results; any other exception goes on.
abbrev pub safe_search : Result (List SearchResult) → Result (List SearchResult)
safe_search (ok results) = ok results
safe_search (err (Exception.search_error m)) = ok []
safe_search (err e) = err e

-- one answer in front of the others
unfoldable pub joined :
    Result (List SearchResult)
    → Result (List (List SearchResult))
    → Result (List (List SearchResult))
joined (err e) rest = err e
joined (ok results) (err e) = err e
joined (ok results) (ok rest) = ok (results ∷ rest)

-- `asyncio.gather`: the answers in order, or an exception
unfoldable pub gather : List SearchClient → String → ℕ → Result (List (List SearchResult))
unfolding joined
gather [] query max_results = ok []
gather (client ∷ clients) query max_results =
    joined (safe_search (client query max_results)) (gather clients query max_results)

-- `CompositeSearchClient.search`
abbrev pub merged :
    (String → String) → ℕ → Result (List (List SearchResult)) → Result (List SearchResult)
merged casefold max_results (ok batches) = ok (merge_results casefold max_results batches)
merged casefold max_results (err e) = err e

unfoldable pub search :
    (String → String) → List SearchClient → String → ℕ → Result (List SearchResult)
unfolding gather
search casefold clients query max_results =
    merged casefold max_results (gather clients query max_results)
