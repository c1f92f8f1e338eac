-- ===== src/Tracker.antt =====
-- The job tracker: profiles, jobs, match analyses and feedback, with the handlers of app/api that
-- change them.
pub mod Model
mod Lookup
pub mod Results
pub mod Analysis
pub mod AnalysisApi
pub mod Memory
pub mod Feedback
pub mod Handoff
pub mod Cards
pub mod JobsApi
mod Samples
mod Tests
