-- ===== src/Research/Tests.antt =====
-- A model that searches at each step, and a search that gives the same result each time.
use ai_career_os.Common.{ℕ, ◌+◌, ◌≤◌, ◌≡◌, true, none, some, [], ◌∷◌}
use ai_career_os.Common.Exec.{ok, Post}
use ai_career_os.Search.Merge.{all_fresh}
use ai_career_os.Tracker.Model.{JobRow}
use ai_career_os.Research.{AgentAction, Usage, ResearchEnv, research_company}
use ai_career_os.Research.Bounded.{research_company-bounded}

abbrev eager : ResearchEnv ℕ
eager = record {
  casefold = λ s. s;
  str_other = λ v. "?";
  next_step = λ n prompt content.
      ok (record { action = AgentAction.search; query = some "acme"; rationale = "more" });
  write_brief = λ n prompt content. ok (record {
    company = "Acme";
    summary = "Engines";
    culture_signals = [];
    recent_news = [];
    interview_signals = [];
    red_flags = [];
  });
  search_client = λ n query max_results.
      ok (record { title = "Acme"; url = "https://acme.test"; snippet = "Engines" } ∷ []);
  load_prompt = λ name. name;
  now = 0;
}

abbrev job : JobRow ℕ
job = record {
  id = 2;
  title = "Engineer";
  company = "Acme";
  description = "Builds engines";
  location = none;
  url = none;
  source = none;
  raw_metadata = none;
  company_brief = none;
  application_status = "saved";
}

abbrev unused : Usage
unused = record { llm_calls = 0; searches = 0 }

research_company-bounded_example :
    Post
      (λ brief after.
        (all_fresh (λ s. s) [] brief.sources ≡ true)
        × (after.llm_calls ≤ 0 + 6)
        × (after.searches ≤ 0 + 5))
      (λ after. (after.llm_calls ≤ 0 + 6) × (after.searches ≤ 0 + 5))
      (research_company eager job unused)
research_company-bounded_example = research_company-bounded eager job unused
