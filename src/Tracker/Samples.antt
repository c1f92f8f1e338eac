-- ===== src/Tracker/Samples.antt =====
-- A profile, two jobs and their analyses, with natural numbers in place of Python's.
use ai_career_os.Common.{ℕ, ◌-◌, true, none, some, [], ◌∷◌, ◌==◌}
use ai_career_os.Common.Text.{str_nat}
use ai_career_os.Common.Exec.{Exception, Result, ok, err}
use ai_career_os.Json.{Value, Fields, number}
use ai_career_os.JobMetadata.{Numbers}
use ai_career_os.Radar.Model.{AnalysisStatus}
use ai_career_os.Tracker.Model.{ProfileRow, JobRow, AnalysisRow, MemoryRow, Rows, Session}
use ai_career_os.Tracker.Results.{
  MatchResult, Recommendation, Validated, valid, full_result_payload,
}
use ai_career_os.Tracker.Memory.{Texts}
use ai_career_os.Tracker.AnalysisApi.{CoverLetterResult}

abbrev to_nat : Value ℕ → Result ℕ
to_nat (number n) = ok n
to_nat _ = err (Exception.value_error "could not convert")

abbrev pub naturals : Numbers ℕ
naturals = record {
  is_zero = λ n. n == 0;
  of_nat = λ n. n;
  round_1 = λ n. n;
  minus = λ a b. a - b;
  to_float = to_nat;
}

abbrev pub texts : Texts ℕ
texts = record {
  sha256_hex = λ s. s;
  uuid_str = str_nat;
  str_other = λ v. "?";
  is_zero = λ n. n == 0;
}

abbrev pub profile : ProfileRow ℕ
profile = record {
  id = 1;
  name = "Ada";
  headline = none;
  resume_text = "Python";
  structured_data = none;
  radar_target = none;
}

abbrev pub job : JobRow ℕ
job = record {
  id = 2;
  title = "Engineer";
  company = "Acme";
  description = "Builds engines";
  location = none;
  url = some "https://acme.test/2";
  source = none;
  raw_metadata = none;
  company_brief = none;
  application_status = "saved";
}

abbrev pub match : MatchResult ℕ
match = record {
  score = 70;
  recommendation = Recommendation.apply;
  strengths = [];
  gaps = [];
  summary = "A fit";
}

abbrev pub same : ℕ → ℕ
same n = n

abbrev pub read_match : Fields ℕ → Validated (MatchResult ℕ)
read_match fields = valid match

abbrev pub waiting : AnalysisRow ℕ
waiting = record {
  id = 3;
  profile_id = 1;
  job_id = 2;
  status = AnalysisStatus.pending;
  result = none;
  error = none;
}

abbrev pub finished : AnalysisRow ℕ
finished = record {
  id = 4;
  profile_id = 1;
  job_id = 2;
  status = AnalysisStatus.completed;
  result = some (full_result_payload same match []);
  error = none;
}

abbrev pub old_memory : MemoryRow
old_memory = record {
  id = 5;
  profile_id = 1;
  category = "preference";
  content = "Career preference — team: small.";
  memory_key = some "pref:team";
  source_feedback_ids = [];
  active = true;
}

abbrev pub rows : Rows ℕ
rows = record {
  profiles = profile ∷ [];
  jobs = job ∷ [];
  analyses = waiting ∷ finished ∷ [];
  events = [];
  memories = old_memory ∷ [];
  next_id = 6;
}

abbrev pub session : Session ℕ
session = record { rows = rows; saved = rows; queued = [] }

abbrev pub letter : CoverLetterResult
letter = record {
  body = "Dear Acme.";
  tone = "warm";
  highlights_used = [];
  critique_summary = "ok";
}
