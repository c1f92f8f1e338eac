-- ===== src/Lib.antt =====
-- A model of AI Career OS (the Python service under app/) and what is proved of it.
--
-- The modelled parts are Radar (app/services/radar), the job tracker with its match analyses,
-- feedback and handoffs (app/api), the research on companies, the composite web search and the
-- normal form of job URLs. A poll of a watched company fetches the roles of its board, drops what the watch does
-- not want, lets a language model pick the new roles worth a look, stores the roles, and lets a
-- model score the stored ones that wait for a score.
--
-- Common holds what all parts share: Tests, Lists, Count and Text are Python's comparisons, lists and
-- texts; Exec is Python's exceptions as values, with a state that keeps what was written when an
-- exception is raised.
--
-- - Radar.Model: the rows of app/models/__init__.py, the schemas of app/schemas/radar.py and the
--   RawPosting of app/services/radar/sources/base.py. A UUID is a number, a moment is a number of
--   microseconds, and a JSON value that is not looked into is its text.
-- - Radar.Database: the tables and a session over them. The session sees `rows`; `commit` makes them
--   the `saved` ones. `flush` checks the widths of the columns that a board fills and the
--   unique key of the postings, and rolls back where it fails.
-- - Radar.Triage: app/services/radar/triage.py. `batches` counts its rounds by the number of roles,
--   which is enough, since a batch is not empty. A language model is a function of the number of
--   calls made, so that its answers may differ from call to call.
-- - Radar.Screener: app/services/radar/screener.py. The loop returns the rows as it leaves them, also
--   where it is cut off by an exception.
-- - Radar.Postings: `_store_postings`, `_known_external_ids` and `_unscreened_postings` of
--   app/services/radar/poller.py.
-- - Radar.Poller: `claim_company` and `poll_company` of the same file. The `try` block is cut into
--   the functions poll_fetched, poll_eligible, poll_triaged and poll_stored, each of which is what
--   follows one call that answers.
-- - Radar.Due: `due_company_ids` of the same file, with `get_radar_poll_interval` of
--   app/services/settings_service.py.
-- - Radar.Promote: `promote_posting` of app/services/radar/promote.py, which turns a posting into a
--   job with a pending analysis.
-- - Radar.Api: the handlers of app/api/radar.py that change companies and postings; Radar.Api.Watch adds
--   a company, and Radar.Api.Feed lists the postings and the companies.
-- - Search: `CompositeSearchClient` of app/services/search/composite.py, which asks several providers
--   and merges what they find; its modules are Search.Merge and Search.Tests.
-- - JobUrl: app/services/job_url.py, with the functions of urllib as parameters; its modules are
--   JobUrl.Tracking and JobUrl.Tests.
-- - Json: values of JSON, with Python's numbers as a parameter, and the reading and writing of a dict.
-- - JobMetadata: what is kept in `Job.raw_metadata`, app/services/application_progress.py and
--   app/services/job_artifacts.py.
-- - Tracker.Model: the rows of app/models/__init__.py with their JSON columns, and a session. A call
--   of the model may index the chunks of a resume in that session (app/services/rag/indexing.py): it
--   gives its answer and what the next commit makes of the chunks, whose table is left out.
-- - Tracker.Results and Tracker.Analysis: app/services/match/result.py and orchestrator.py. The run
--   of an analysis is cut into what follows each call that answers.
-- - Tracker.AnalysisApi: app/api/match_analyses.py and app/api/deps.py.
-- - Tracker.Memory and Tracker.Feedback: app/services/memory, app/services/jobs/application_status.py,
--   app/schemas/feedback.py and app/api/feedback.py.
-- - Tracker.Handoff: app/services/job_intake_handoff.py.
-- - Tracker.Cards: app/services/screening_card.py and app/services/match/formatters.py.
-- - Tracker.JobsApi: app/api/jobs.py.
-- - Research: app/services/company_research.py. Its loop runs on the number of steps that are left.
-- - Ats: app/services/radar/sources, the boards that Radar reads, over Json values; Ats.Html is the
--   text of HTML, of app/services/job_paste_parser.py; Ats.Resolver is
--   app/services/radar/resolver.py.
-- - Radar.Samples, Radar.Tests, Radar.PollTests and Radar.ApiTests: concrete data, and the theorems
--   on them.
--
-- Parameters: the prompt files, the settings, the answer of a board, the answers of the models,
-- pydantic's validation of the stored criteria, Python's Unicode tables, whether another transaction
-- holds the row of a company, and what `commit()` answers after a failed flush; for a promotion, the
-- structured text of a posting, the normal form of its URL and the screening card; for a search, the
-- providers and `str.casefold`; for the tracker, Python's numbers, `str` of values that are no texts,
-- SHA-256, `model_validate`, the clock, fresh ids, and the calls of the model; for the boards, HTTP, regular
-- expressions, HTMLParser, html.unescape and dates. A poll is taken to run alone on its rows, apart from the claim.
-- `str_nat` writes a number with as many rounds as the number and one more, and each round divides
-- it by ten.
--
-- A text is taken to hold no NUL character, which PostgreSQL refuses in every column, and the
-- functions of urllib to answer, which urlparse does not for a host with a malformed address.
--
-- Not modelled: logging, the semaphore and the tasks of asyncio, the scheduler loop, and the other
-- services of app/, which are listed in the manifest beside this library.
pub mod Common
pub mod Radar
pub mod Search
pub mod JobUrl
pub mod Json
pub mod JobMetadata
pub mod Tracker
pub mod Research
pub mod Ats
