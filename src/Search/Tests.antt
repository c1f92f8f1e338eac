-- ===== src/Search/Tests.antt =====
-- Searches with concrete providers.
use ai_career_os.Common.{◌≤◌, String, ◌≡◌, refl, subst, true, List, [], ◌∷◌, arith, length}
use ai_career_os.Common.Exec.{Exception, Result, ok, err}
use ai_career_os.Search.{SearchResult, SearchClient, merge_results, search}
use ai_career_os.Search.Merge.{all_fresh, Answers, is_search_error, search-returns}

abbrev page : String → SearchResult
page url = record { title = "Acme"; url = url; snippet = "About Acme." }

abbrev finds : SearchClient
finds query max_results = ok (page "a" ∷ page "b" ∷ page "a" ∷ [])

abbrev fails : SearchClient
fails query max_results = err (Exception.search_error "timeout")

merged_run :
    merge_results
      (λ s. s)
      3
      ((page "a" ∷ page "b" ∷ []) ∷ (page "b" ∷ page "c" ∷ page "d" ∷ []) ∷ [])
    ≡ page "a" ∷ page "b" ∷ page "c" ∷ []
unfolding merge_results
merged_run = refl

err-injective : {d e : Exception} → ◌≡◌ {A = Result (List SearchResult)} (err d) (err e) → d ≡ e
err-injective h = cc

finds-Answers : Answers "acme" 5 finds
finds-Answers e h = cc

fails-Answers : Answers "acme" 5 fails
fails-Answers e h = subst (λ x. is_search_error x ≡ true) (err-injective h) refl

search-returns_example :
    (results : List SearchResult) × (search (λ s. s) (fails ∷ finds ∷ []) "acme" 5 ≡ ok results)
    × (length results ≤ 5)
    × (all_fresh (λ s. s) [] results ≡ true)
search-returns_example =
    search-returns (λ s. s) (fails ∷ finds ∷ []) "acme" 5 (fails-Answers, (finds-Answers, tt))
      (omega arith)
