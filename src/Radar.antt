-- ===== src/Radar.antt =====
-- app/services/radar: the boards of the watched companies, polled, triaged, screened and promoted.
pub mod Model
pub mod Triage
pub mod Screener
pub mod Database
pub mod Postings
pub mod Poller
pub mod Due
pub mod Promote
pub mod Api
mod Samples
mod Tests
mod PollTests
mod ApiTests
