-- ===== src/Research/Bounded.antt =====
-- How long app/services/company_research.py runs, and what it answers.
use ai_career_os.Common.{
  ℕ, zero, suc, ◌+◌, ◌≤◌, String, ◌≡◌, refl, subst, true, List, [], ◌∷◌, ◌++◌, leb, str_eq, arith,
  Bool-cases, inl, inr,
}
use mathlib.Core.Path.{ap₂}
use ai_career_os.Common.Text.{strip, or_blank}
use ai_career_os.Common.Exec.{Result, ok, err, Exec, Post, lift, Post-mono, Post->>=, ◌>>=◌, pure}
use ai_career_os.Search.{SearchResult, mem_url}
use ai_career_os.Search.Merge.{all_fresh}
use ai_career_os.Tracker.Model.{JobRow}
use ai_career_os.Research.{
  AgentAction, CompanyBrief, CompanyBriefContent, Usage, ResearchEnv, ResearchAgentStep,
  dedupe_from, dedupe_search_results, ask_step, ask_brief, run_search, act, search_loop,
  run_agent_search_loop, with_company, synthesize_brief, research_company,
  build_research_agent_user_message, build_research_synthesize_user_message,
  max_search_results_per_query, max_agent_searches,
}

module _ {F : Type 0} (env : ResearchEnv F) where
  open env use {casefold, next_step, search_client, write_brief, load_prompt}

  dedupe_from-all_fresh :
      (seen : List String) (rs : List SearchResult)
      → all_fresh casefold seen (dedupe_from env seen rs) ≡ true
  unfolding dedupe_from
  dedupe_from-all_fresh seen [] = refl
  dedupe_from-all_fresh seen (r ∷ rs) = elim (Bool-cases (mem_url (casefold r.url) seen)) [
    | inl old ↦ rw old (dedupe_from-all_fresh seen rs)
    | inr new ↦ rw new (rw new (dedupe_from-all_fresh (casefold r.url ∷ seen) rs))
  ]

  -- at most so many calls of each kind, and no URL twice among the results
  abbrev Within : ℕ → ℕ → Result (List SearchResult) × Usage → Type 0
  Within calls searches =
      Post
        (λ results after.
          (all_fresh casefold [] results ≡ true)
          × (after.llm_calls ≤ calls)
          × (after.searches ≤ searches))
        (λ after. (after.llm_calls ≤ calls) × (after.searches ≤ searches))

  abbrev Rest : Type 0
  Rest = List SearchResult → ℕ → Exec Usage (List SearchResult)

  act-Within :
      (left : ℕ) (rest : Rest)
      → ((collected : List SearchResult) (done : ℕ) (usage : Usage)
          → all_fresh casefold [] collected ≡ true
          → Within (usage.llm_calls + left) (usage.searches + left) (rest collected done usage))
      → (collected : List SearchResult) (done : ℕ) (action : AgentAction) (query : String)
        (usage : Usage)
      → all_fresh casefold [] collected ≡ true
      → Within
          (usage.llm_calls + left)
          (usage.searches + (left + 1))
          (act env rest collected done action query usage)
  unfolding act run_search dedupe_search_results
  act-Within left rest bound collected done AgentAction.synthesize query usage h =
      (h, omega arith, omega arith)
  act-Within left rest bound collected done AgentAction.search query usage h =
      elim (Bool-cases (leb max_agent_searches done)) [
        | inl enough ↦ rw enough (h, omega arith, omega arith)
        | inr more ↦ elim (Bool-cases (str_eq query "")) [
          | inl blank ↦ rw (more, blank) (looser collected done usage h (omega arith) (omega arith))
          | inr asks ↦
              rw (more, asks)
                (found (search_client usage.searches query max_search_results_per_query))
        ]
      ]
    where
      calls : ℕ
      calls = usage.llm_calls + left

      searches : ℕ
      searches = usage.searches + (left + 1)

      looser :
          (results : List SearchResult) (n : ℕ) (after : Usage)
          → all_fresh casefold [] results ≡ true
          → after.llm_calls ≤ usage.llm_calls
          → after.searches ≤ usage.searches + 1
          → Within calls searches (rest results n after)
      looser results n after fresh less fewer =
          Post-mono
            (λ found t.
              (all_fresh casefold [] found ≡ true)
              × (t.llm_calls ≤ after.llm_calls + left)
              × (t.searches ≤ after.searches + left))
            (λ found t.
              (all_fresh casefold [] found ≡ true)
              × (t.llm_calls ≤ calls)
              × (t.searches ≤ searches))
            (λ t. (t.llm_calls ≤ after.llm_calls + left) × (t.searches ≤ after.searches + left))
            (λ t. (t.llm_calls ≤ calls) × (t.searches ≤ searches)) (rest results n after)
            (λ found t k. (k.0, omega (arith, k.1, less), omega (arith, k.2, fewer)))
            (λ t k. (omega (arith, k.0, less), omega (arith, k.1, fewer)))
            (bound results n after fresh)

      found :
          (answer : Result (List SearchResult))
          → Within calls searches (
              (lift answer >>= λ batch.
              rest (dedupe_search_results env (collected ++ batch)) (done + 1))
                (record usage { searches = usage.searches + 1 }))
      found (err e) = (omega arith, omega arith)
      found (ok batch) =
          looser (dedupe_search_results env (collected ++ batch)) (done + 1) _
            (dedupe_from-all_fresh [] (collected ++ batch)) (omega arith) (omega arith)

  search_loop-Within :
      (left : ℕ) (job : JobRow F) (step : ℕ) (collected : List SearchResult) (searches_done : ℕ)
      (usage : Usage)
      → all_fresh casefold [] collected ≡ true
      → Within
          (usage.llm_calls + left)
          (usage.searches + left)
          (search_loop env left job step collected searches_done usage)
  unfolding search_loop ask_step
  search_loop-Within zero job step collected searches_done usage h = (h, omega arith, omega arith)
  search_loop-Within (suc left) job step collected searches_done usage h =
      stepped (search_loop-Within left job (step + 1)) (
        next_step usage.llm_calls (load_prompt "company_research_agent")
          (build_research_agent_user_message env job collected step searches_done))
    where
      asked : Usage
      asked = record usage { llm_calls = usage.llm_calls + 1 }

      stepped :
          ((collected : List SearchResult) (done : ℕ) (usage : Usage)
            → all_fresh casefold [] collected ≡ true
            → Within
                (usage.llm_calls + left)
                (usage.searches + left)
                (search_loop env left job (step + 1) collected done usage))
          → (answer : Result ResearchAgentStep)
          → Within (usage.llm_calls + suc left) (usage.searches + suc left) (
              (lift answer >>= λ agent_step.
              act env
                (search_loop env left job (step + 1))
                collected
                searches_done
                agent_step.action
                (strip (or_blank agent_step.query)))
                asked)
      stepped bound (err e) = (omega arith, omega arith)
      stepped bound (ok agent_step) =
          subst
            (λ (bounds : ℕ × ℕ). Within bounds.0 bounds.1 (
              act env (search_loop env left job (step + 1)) collected searches_done
                agent_step.action (strip (or_blank agent_step.query)) asked))
            (ap₂ (λ a b. (a, b)) (omega arith) (omega arith))
            (act-Within left (search_loop env left job (step + 1)) bound collected searches_done
              agent_step.action (strip (or_blank agent_step.query)) asked h)

  run_agent_search_loop-Within :
      (job : JobRow F) (usage : Usage)
      → Within (usage.llm_calls + 5) (usage.searches + 5) (run_agent_search_loop env job usage)
  unfolding run_agent_search_loop
  run_agent_search_loop-Within job usage = search_loop-Within 5 job 1 [] 0 usage refl

  abbrev briefed : JobRow F → List SearchResult → Exec Usage CompanyBrief
  briefed job results = synthesize_brief env job results >>= λ content.
      pure (record { content = content; sources = results; researched_at = env.now })

  abbrev BriefWithin : ℕ → ℕ → Result CompanyBrief × Usage → Type 0
  BriefWithin calls searches =
      Post
        (λ brief after.
          (all_fresh casefold [] brief.sources ≡ true)
          × (after.llm_calls ≤ calls)
          × (after.searches ≤ searches))
        (λ after. (after.llm_calls ≤ calls) × (after.searches ≤ searches))

  briefed-BriefWithin :
      (calls searches : ℕ) (job : JobRow F) (results : List SearchResult) (usage : Usage)
      → (all_fresh casefold [] results ≡ true)
        × (usage.llm_calls + 1 ≤ calls)
        × (usage.searches ≤ searches)
      → BriefWithin calls searches (briefed job results usage)
  unfolding synthesize_brief ask_brief
  briefed-BriefWithin calls searches job results usage h = written (
      write_brief usage.llm_calls (load_prompt "company_research_synthesize")
        (build_research_synthesize_user_message env job results))
    where
      asked : Usage
      asked = record usage { llm_calls = usage.llm_calls + 1 }

      written :
          (answer : Result CompanyBriefContent)
          → BriefWithin calls searches (
              ((lift answer >>= λ content. pure (with_company env job content)) >>= λ content.
              pure (record { content = content; sources = results; researched_at = env.now }))
                asked)
      written (err e) = (omega (arith, h.1), h.2)
      written (ok content) = (h.0, omega (arith, h.1), h.2)

  -- Research on a company returns or raises after at most six calls of the model and five searches.
  -- The sources of its brief have no URL twice, up to case.
  pub research_company-bounded :
      (job : JobRow F) (usage : Usage)
      → Post
          (λ brief after.
            (all_fresh casefold [] brief.sources ≡ true)
            × (after.llm_calls ≤ usage.llm_calls + 6)
            × (after.searches ≤ usage.searches + 5))
          (λ after. (after.llm_calls ≤ usage.llm_calls + 6) × (after.searches ≤ usage.searches + 5))
          (research_company env job usage)
  unfolding research_company
  research_company-bounded job usage =
      Post->>=
        (λ results t.
          (all_fresh casefold [] results ≡ true)
          × (t.llm_calls ≤ usage.llm_calls + 5)
          × (t.searches ≤ usage.searches + 5))
        (λ brief t.
          (all_fresh casefold [] brief.sources ≡ true)
          × (t.llm_calls ≤ usage.llm_calls + 6)
          × (t.searches ≤ usage.searches + 5))
        (λ t. (t.llm_calls ≤ usage.llm_calls + 6) × (t.searches ≤ usage.searches + 5))
        (run_agent_search_loop env job) (briefed job) usage
        (Post-mono
          (λ results t.
            (all_fresh casefold [] results ≡ true)
            × (t.llm_calls ≤ usage.llm_calls + 5)
            × (t.searches ≤ usage.searches + 5))
          (λ results t.
            (all_fresh casefold [] results ≡ true)
            × (t.llm_calls ≤ usage.llm_calls + 5)
            × (t.searches ≤ usage.searches + 5))
          (λ t. (t.llm_calls ≤ usage.llm_calls + 5) × (t.searches ≤ usage.searches + 5))
          (λ t. (t.llm_calls ≤ usage.llm_calls + 6) × (t.searches ≤ usage.searches + 5))
          (run_agent_search_loop env job usage) (λ results t k. k)
          (λ t k. (omega (arith, k.0), k.1)) (run_agent_search_loop-Within job usage))
        (λ results t k.
          briefed-BriefWithin (usage.llm_calls + 6) (usage.searches + 5) job results t
            (k.0, omega (arith, k.1), k.2))
