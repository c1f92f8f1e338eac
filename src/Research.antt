-- ===== src/Research.antt =====
-- Research on the company of a job: app/services/company_research.py with the schemas of
-- app/schemas/company_research.py. The model and the search client are parameters, which may answer
-- each of their calls differently: they get the number of calls that went before. `str.casefold`
-- and the prompts' texts are parameters too, and the log is left out.
pub mod Bounded
mod Tests
use Prim.Native.String.{◌++◌ as ◌+++◌}
use ai_career_os.Common.{
  ℕ, zero, suc, ◌+◌, String, Bool, true, false, not, Option, none, some, List, [], ◌∷◌, ◌++◌, leb,
  str_eq, if◌then◌else◌, is_empty,
}
use ai_career_os.Common.Text.{strip, join, truthy, or_blank, str_nat}
use ai_career_os.Common.Exec.{Exception, Result, ok, err, Exec, ◌>>=◌, pure}
use ai_career_os.Json.{Value}
use ai_career_os.Search.{SearchResult, mem_url}
use ai_career_os.Tracker.Model.{JobRow}
use ai_career_os.Tracker.Cards.{format_job}

abbrev pub max_search_results_per_query : ℕ
max_search_results_per_query = 5

abbrev pub max_agent_steps : ℕ
max_agent_steps = 5

abbrev pub max_agent_searches : ℕ
max_agent_searches = 5

pub data AgentAction : Type 0 where
  search synthesize : AgentAction

pub record ResearchAgentStep : Type 0 where
  pub action : AgentAction
  pub query : Option String
  pub rationale : String

pub record CompanyBriefContent : Type 0 where
  pub company : String
  pub summary : String
  pub culture_signals : List String
  pub recent_news : List String
  pub interview_signals : List String
  pub red_flags : List String

pub record CompanyBrief : Type 0 where
  pub content : CompanyBriefContent
  pub sources : List SearchResult
  pub researched_at : ℕ

-- how often the model and the search client were called
pub record Usage : Type 0 where
  pub llm_calls : ℕ
  pub searches : ℕ

pub record ResearchEnv (F : Type 0) : Type 0 where
  pub casefold : String → String
  pub str_other : Value F → String
  -- `generate_structured` for the next step and for the brief, of a system prompt and a message
  pub next_step : ℕ → String → String → Result ResearchAgentStep
  pub write_brief : ℕ → String → String → Result CompanyBriefContent
  pub search_client : ℕ → String → ℕ → Result (List SearchResult)
  pub load_prompt : String → String
  pub now : ℕ

unfoldable pub result_blocks : ℕ → List SearchResult → List String
result_blocks index [] = []
result_blocks index (result ∷ rest) =
    join "\n" (
      ("[" +++ str_nat index +++ "] " +++ result.title)
      ∷ ("URL: " +++ result.url)
      ∷ ("Snippet: " +++ result.snippet)
      ∷ [])
    ∷ result_blocks (index + 1) rest

unfoldable pub format_search_results : List SearchResult → String
unfolding result_blocks
format_search_results results =
    if is_empty results
    then "No search results returned."
    else join "\n\n" (result_blocks 1 results)

module _ {F : Type 0} (env : ResearchEnv F) where
  open env use {casefold, str_other, next_step, write_brief, search_client, load_prompt, now}

  unfoldable pub format_job_for_research : JobRow F → String
  format_job_for_research job =
      if truthy job.url
      then join "\n" (format_job str_other job ∷ ("\nJob URL: " +++ or_blank job.url) ∷ [])
      else join "\n" (format_job str_other job ∷ [])

  unfoldable pub build_research_agent_user_message : JobRow F → List SearchResult → ℕ → ℕ → String
  unfolding format_search_results format_job_for_research
  build_research_agent_user_message job search_results step searches_done = join "\n\n" (
      ("Research step " +++ str_nat step +++ " of " +++ str_nat max_agent_steps +++ ".")
      ∷ ("Searches used: " +++ str_nat searches_done +++ "/" +++ str_nat max_agent_searches +++ ".")
      ∷ ("Target job:\n\n" +++ format_job_for_research job)
      ∷ (if is_empty search_results
          then "No search results yet."
          else "Results collected so far:\n\n" +++ format_search_results search_results)
      ∷ ("Choose action=search with one new query, or action=synthesize "
          +++ "if you have enough evidence for the brief.")
      ∷ [])

  unfoldable pub build_research_synthesize_user_message : JobRow F → List SearchResult → String
  unfolding format_search_results format_job_for_research
  build_research_synthesize_user_message job search_results = join "\n\n" (
      ("Target job:\n\n" +++ format_job_for_research job)
      ∷ ("Web search results:\n\n" +++ format_search_results search_results)
      ∷ [])

  -- the loop of `_dedupe_search_results`, with `seen_urls`
  unfoldable pub dedupe_from : List String → List SearchResult → List SearchResult
  dedupe_from seen [] = []
  dedupe_from seen (result ∷ rest) =
      let key = casefold result.url in
      let skipped = dedupe_from seen rest in
      let more = dedupe_from (key ∷ seen) rest in
      if mem_url key seen then skipped else result ∷ more

  unfoldable pub dedupe_search_results : List SearchResult → List SearchResult
  unfolding dedupe_from
  dedupe_search_results = dedupe_from []

  -- the calls, which are counted
  unfoldable pub ask_step : String → String → Exec Usage ResearchAgentStep
  ask_step prompt content usage =
      (next_step usage.llm_calls prompt content, record usage { llm_calls = usage.llm_calls + 1 })

  unfoldable pub ask_brief : String → String → Exec Usage CompanyBriefContent
  ask_brief prompt content usage =
      (write_brief usage.llm_calls prompt content, record usage { llm_calls = usage.llm_calls + 1 })

  unfoldable pub run_search : String → Exec Usage (List SearchResult)
  run_search query usage = (
    search_client usage.searches query max_search_results_per_query,
    record usage { searches = usage.searches + 1 },
  )

  -- The rest of a step, where `rest` is what the next steps do with the results and the number of
  -- searches.
  unfoldable pub act :
      (List SearchResult → ℕ → Exec Usage (List SearchResult))
      → List SearchResult
      → ℕ
      → AgentAction
      → String
      → Exec Usage (List SearchResult)
  unfolding dedupe_search_results run_search
  act rest collected searches_done synthesize query = pure collected
  act rest collected searches_done search query =
      if leb max_agent_searches searches_done
      then pure collected
      else if str_eq query ""
      then rest collected searches_done
      else (run_search query >>= λ batch.
          rest (dedupe_search_results (collected ++ batch)) (searches_done + 1))

  -- `for step in range(...)`, with the steps that are left
  unfoldable pub search_loop :
      ℕ → JobRow F → ℕ → List SearchResult → ℕ → Exec Usage (List SearchResult)
  unfolding act ask_step build_research_agent_user_message
  search_loop zero job step collected searches_done = pure collected
  search_loop (suc left) job step collected searches_done =
      ask_step (load_prompt "company_research_agent")
        (build_research_agent_user_message job collected step searches_done)
      >>= λ agent_step.
          act (search_loop left job (step + 1)) collected searches_done agent_step.action
            (strip (or_blank agent_step.query))

  unfoldable pub run_agent_search_loop : JobRow F → Exec Usage (List SearchResult)
  unfolding search_loop
  run_agent_search_loop job = search_loop max_agent_steps job 1 [] 0

  -- the company of the job, unless the model has named it
  abbrev pub with_company : JobRow F → CompanyBriefContent → CompanyBriefContent
  with_company job content =
      if not (str_eq (casefold (strip content.company)) (casefold (strip job.company)))
      then record content { company = job.company }
      else content

  unfoldable pub synthesize_brief : JobRow F → List SearchResult → Exec Usage CompanyBriefContent
  unfolding ask_brief build_research_synthesize_user_message
  synthesize_brief job search_results =
      ask_brief (load_prompt "company_research_synthesize")
        (build_research_synthesize_user_message job search_results)
      >>= λ content. pure (with_company job content)

  unfoldable pub research_company : JobRow F → Exec Usage CompanyBrief
  unfolding run_agent_search_loop synthesize_brief
  research_company job = run_agent_search_loop job >>= λ search_results.
      synthesize_brief job search_results >>= λ content.
      pure (record { content = content; sources = search_results; researched_at = now })
