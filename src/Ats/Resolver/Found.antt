-- ===== src/Ats/Resolver/Found.antt =====
-- What `resolve_board` of app/services/radar/resolver.py finds.
use ai_career_os.Common.{
  ◌≤◌, String, ◌≡◌, refl, sym, subst, ◌∙◌, ◌⊎◌, inl, inr, Bool, true, false, not, Option, none,
  some, List, [], ◌∷◌, str_eq, if◌then◌else◌, length, arith, Bool-cases, if_true, if_false,
}
use mathlib.Core.List.{Mem, mem-cons_self, mem-cons_of_mem}
use ai_career_os.Common.Text.{strip}
use ai_career_os.Common.Exec.{Exception, Result, ok, err}
use ai_career_os.Radar.Model.{RawPosting}
use ai_career_os.Search.{SearchResult}
use ai_career_os.Ats.{AtsSource, is_ats_error}
use ai_career_os.Ats.Resolver.{
  ResolverEnv, ResolvedVia, ResolvedBoard, first_match, found_token, board_from, safe_probe,
  open_role_count, unless_empty, or_next, looks_like_url, slug_candidates, via_url, resolve_match,
  resolve_from_url, probe_sources, probe_tokens, resolve_by_probe, result_board, search_results,
  searched, resolve_by_search, or_not_found_board, resolve_board,
}

abbrev pub is_via_url : ResolvedVia → Bool
is_via_url ResolvedVia.url = true
is_via_url _ = false

-- A board that one of the sources can be read for: it is described as that source does, and counts
-- the roles that the source gives. It is empty only where the company's URL named it.
pub record Backed (sources : List AtsSource) (board : ResolvedBoard) : Type 0 where
  pub source : AtsSource
  pub known : Mem source sources
  pub provider : board.ats_provider ≡ source.provider
  pub address : board.board_url ≡ source.board_url board.ats_token
  pub postings : List RawPosting
  pub fetched : source.fetch board.ats_token ≡ ok postings
  pub counted : board.open_role_count ≡ length postings
  pub filled : (is_via_url board.resolved_via ≡ true) ⊎ (1 ≤ board.open_role_count)

module _ (sources : List AtsSource) where
  -- what is found, if anything is
  abbrev AllBacked : Result (Option ResolvedBoard) → Type 0
  AllBacked (ok (some board)) = Backed sources board
  AllBacked (ok none) = Unit
  AllBacked (err e) = Unit

  or_next-AllBacked :
      (a b : Result (Option ResolvedBoard)) → AllBacked a → AllBacked b → AllBacked (or_next a b)
  or_next-AllBacked (ok (some board)) b h k = h
  or_next-AllBacked (ok none) b h k = k
  or_next-AllBacked (err e) b h k = tt

  unless_empty-AllBacked :
      (name : String) (source : AtsSource) (token : String) (via : ResolvedVia)
      (later : Result (Option ResolvedBoard))
      → Mem source sources
      → AllBacked later
      → AllBacked (unless_empty name source token via (open_role_count (source.fetch token)) later)
  unless_empty-AllBacked name source token via later known h = counted (source.fetch token) refl
    where
      counted :
          (answer : Result (List RawPosting))
          → source.fetch token ≡ answer
          → AllBacked (unless_empty name source token via (open_role_count answer) later)
      counted (ok []) e = h
      counted (ok (posting ∷ postings)) e = record {
        source = source;
        known = known;
        provider = refl;
        address = refl;
        postings = posting ∷ postings;
        fetched = e;
        counted = refl;
        filled = inr (omega arith);
      }
      counted (err x) e = elim (Bool-cases (is_ats_error x)) [
        | inl ats ↦ rw ats h
        | inr other ↦ rw other tt
      ]

  -- a match names a source of the list
  abbrev Matched : Option (AtsSource × String) → Type 0
  Matched none = Unit
  Matched (some (source, token)) = Mem source sources

board_from-Matched :
    (sources : List AtsSource) (link : String) → Matched sources (board_from sources link)
unfolding board_from
board_from-Matched [] link = tt
board_from-Matched (source ∷ sources) link =
    matched (found_token (source.matches_url link)) (board_from sources link)
      (board_from-Matched sources link)
  where
    matched :
        (token : Option String) (later : Option (AtsSource × String))
        → Matched sources later
        → Matched (source ∷ sources) (first_match source token later)
    matched (some token) later h = mem-cons_self
    matched none none h = tt
    matched none (some (other, token)) h = mem-cons_of_mem source h

module _ (env : ResolverEnv) where
  resolve_match-AllBacked :
      (found : Option (AtsSource × String))
      → Matched env.sources found
      → AllBacked env.sources (resolve_match env found)
  resolve_match-AllBacked none h = tt
  resolve_match-AllBacked (some (source, token)) h = counted (source.fetch token) refl
    where
      counted :
          (answer : Result (List RawPosting))
          → source.fetch token ≡ answer
          → AllBacked env.sources (via_url env source token (open_role_count answer))
      counted (ok postings) e = record {
        source = source;
        known = h;
        provider = refl;
        address = refl;
        postings = postings;
        fetched = e;
        counted = refl;
        filled = inl refl;
      }
      counted (err x) e = elim (Bool-cases (is_ats_error x)) [
        | inl ats ↦ rw ats tt
        | inr other ↦ rw other tt
      ]

  probe_sources-AllBacked :
      (name token : String) (rest : List AtsSource) (later : Result (Option ResolvedBoard))
      → ((source : AtsSource) → Mem source rest → Mem source env.sources)
      → AllBacked env.sources later
      → AllBacked env.sources (probe_sources env name token rest later)
  unfolding probe_sources
  probe_sources-AllBacked name token [] later known h = h
  probe_sources-AllBacked name token (source ∷ rest) later known h =
      let next =
        probe_sources-AllBacked name token rest later
          (λ other m. known other (mem-cons_of_mem source m)) h in
      elim (Bool-cases (not (safe_probe (source.probe token)))) [
        | inl absent ↦ rw absent next
        | inr there ↦ rw there (
            unless_empty-AllBacked env.sources (strip name) source token ResolvedVia.probe
              (probe_sources env name token rest later) (known source mem-cons_self) next)
      ]

  probe_tokens-AllBacked :
      (name : String) (tokens : List String) → AllBacked env.sources (probe_tokens env name tokens)
  unfolding probe_tokens
  probe_tokens-AllBacked name [] = tt
  probe_tokens-AllBacked name (token ∷ tokens) =
      probe_sources-AllBacked name token env.sources (probe_tokens env name tokens) (λ source m. m)
        (probe_tokens-AllBacked name tokens)

  search_results-AllBacked :
      (name : String) (results : List SearchResult)
      → AllBacked env.sources (search_results env name results)
  unfolding search_results
  search_results-AllBacked name [] = tt
  search_results-AllBacked name (result ∷ results) =
      matched (board_from env.sources result.url) (board_from-Matched env.sources result.url)
        (search_results-AllBacked name results)
    where
      matched :
          (found : Option (AtsSource × String))
          → Matched env.sources found
          → AllBacked env.sources (search_results env name results)
          → AllBacked env.sources (result_board env name found (search_results env name results))
      matched none m h = h
      matched (some (source, token)) m h =
          unless_empty-AllBacked env.sources (strip name) source token ResolvedVia.search
            (search_results env name results) m h

  searched-AllBacked :
      (name : String) (answer : Result (List SearchResult))
      → AllBacked env.sources (searched env name answer)
  searched-AllBacked name (ok results) = search_results-AllBacked name results
  searched-AllBacked name (err (Exception.search_error m)) = tt
  searched-AllBacked name (err (Exception.llm_configuration m)) = tt
  searched-AllBacked name (err (Exception.llm_error m)) = tt
  searched-AllBacked name (err (Exception.value_error m)) = tt
  searched-AllBacked name (err (Exception.board_not_found m)) = tt
  searched-AllBacked name (err (Exception.ats_error m)) = tt
  searched-AllBacked name (err (Exception.integrity_error m)) = tt
  searched-AllBacked name (err (Exception.already_promoted m)) = tt
  searched-AllBacked name (err (Exception.other m)) = tt
  searched-AllBacked name (err (Exception.http_exception c m)) = tt

  -- The board that a query resolves to is that of a source, which could be read for its token, and
  -- its count is that of the roles read; it has at least one role, unless a URL named it.
  pub resolve_board-Backed :
      (query : String) (board : ResolvedBoard)
      → resolve_board env query ≡ ok board
      → Backed env.sources board
  unfolding resolve_board resolve_from_url resolve_by_probe resolve_by_search
  resolve_board-Backed query board h = elim (Bool-cases (str_eq (strip query) "")) [
    | inl blank ↦
        let bad : err (Exception.other "Enter a company name or a careers page URL.") ≡ ok board =
          sym (if_true _ _ blank) ∙ h in
        absurd cc
    | inr asks ↦
        found
          (or_next
            (if looks_like_url env (strip query)
              then resolve_from_url env (strip query)
              else ok none)
            (or_next (resolve_by_probe env (strip query)) (resolve_by_search env (strip query))))
          (or_next-AllBacked env.sources _ _ (by_url (looks_like_url env (strip query))) (
            or_next-AllBacked env.sources _ _
              (probe_tokens-AllBacked (strip query) (slug_candidates env (strip query)))
              (searched-AllBacked (strip query) _)))
          (sym (if_false _ _ asks) ∙ h)
  ]
    where
      by_url :
          (b : Bool)
          → AllBacked env.sources (if b then resolve_from_url env (strip query) else ok none)
      by_url true =
          resolve_match-AllBacked (board_from env.sources (strip query))
            (board_from-Matched env.sources (strip query))
      by_url false = tt

      ok-injective : {a b : ResolvedBoard} → ok a ≡ ok b → a ≡ b
      ok-injective e = cc

      found :
          (r : Result (Option ResolvedBoard))
          → AllBacked env.sources r
          → or_not_found_board env (strip query) r ≡ ok board
          → Backed env.sources board
      found (ok (some b)) backed e = subst (Backed env.sources) (ok-injective e) backed
      found (ok none) backed e = absurd cc
      found (err x) backed e = absurd cc
