-- ===== src/Radar/Triage.antt =====
-- app/services/radar/triage.py: a language model picks, by number, the roles of a board that are
-- worth looking at. A call may fail, and what it answers may differ from call to call, so the
-- client is a function of the number of calls made so far.
pub mod Select
pub mod Batches
pub mod FailOpen
pub mod Bounded
use Prim.Native.String.{◌++◌ as ◌+++◌}
use ai_career_os.Common.{
  ℕ, zero, suc, ◌+◌, ◌-◌, ◌<◌, String, Bool, true, false, not, ◌&&◌, ◌||◌, Option, none, some, List,
  [], ◌∷◌, ◌++◌, ltb, leb, ◌==◌, str_eq, if◌then◌else◌, length, get_elem?, take, drop, is_empty,
  flatten, member,
}
use ai_career_os.Common.Text.{strip, join, str_nat, truthy, or_blank}
use ai_career_os.Common.Exec.{is_llm_or_value_error, Result, ok, err, Exec, ◌>>=◌, pure}
use ai_career_os.Radar.Model.{RawPosting, Profile, Message, Role}

abbrev pub triage_batch_size : ℕ
triage_batch_size = 60

abbrev pub max_triage_batches : ℕ
max_triage_batches = 10

abbrev pub triage_max_tokens : ℕ
triage_max_tokens = 512

abbrev pub triage_attempts : ℕ
triage_attempts = 2

abbrev pub default_target : String
default_target = "roles matching the candidate's background and seniority"

-- A Python integer of the model's answer; `negsuc n` is -(n + 1).
pub data ℤ : Type 0 where
  pos negsuc : ℕ → ℤ

-- `raw_index - 1`
abbrev pub pred_ℤ : ℤ → ℤ
pred_ℤ (pos zero) = negsuc 0
pred_ℤ (pos (suc n)) = pos n
pred_ℤ (negsuc n) = negsuc (suc n)

-- `isinstance(candidate, str) and candidate.strip()`
stated : Option String → Option String
stated none = none
stated (some candidate) = let text = strip candidate in if str_eq text "" then none else some text

first_stated : List (Option String) → String
first_stated [] = default_target
first_stated (candidate ∷ rest) = elim (stated candidate) [
  | none ↦ first_stated rest
  | some text ↦ text
]

unfoldable pub resolve_target : Profile → String
unfolding first_stated stated
resolve_target profile = first_stated (profile.radar_target ∷ profile.headline ∷ [])

triage_line : ℕ → RawPosting → String
triage_line index posting =
    let location = if truthy posting.location then " — " +++ or_blank posting.location else "" in
    let remote = if posting.remote_flag then " (remote)" else "" in
    str_nat index +++ ". " +++ posting.title +++ location +++ remote

-- `enumerate(batch, start=index)`
triage_lines : ℕ → List RawPosting → List String
triage_lines index [] = []
triage_lines index (posting ∷ batch) = triage_line index posting ∷ triage_lines (index + 1) batch

unfoldable pub build_triage_user_message : String → List RawPosting → String
unfolding triage_lines triage_line
build_triage_user_message target batch =
    "CANDIDATE IS LOOKING FOR\n"
    +++ target
    +++ "\n\nOPEN ROLES\n"
    +++ join "\n" (triage_lines 1 batch)

-- `range(0, len(postings), TRIAGE_BATCH_SIZE)` and the slices that it makes. There are at most
-- as many batches as postings, which the first argument counts.
batches_from : ℕ → List RawPosting → List (List RawPosting)
batches_from zero postings = []
batches_from (suc rounds) postings =
    let rest = batches_from rounds (drop triage_batch_size postings) in
    if is_empty postings then [] else take triage_batch_size postings ∷ rest

pub batches : List RawPosting → List (List RawPosting)
unfolding batches_from
batches postings = batches_from (length postings) postings

-- The three tests of the loop on one index.
unfoldable pub accepted : ℕ → List ℕ → ℤ → Option ℕ
accepted size seen (negsuc n) = none
accepted size seen (pos index) = if leb size index || member index seen then none else some index

-- The loop over `relevant_indices`, with the set `seen`.
unfoldable pub keep_relevant : List RawPosting → List ℕ → List ℤ → List RawPosting
unfolding accepted
keep_relevant batch seen [] = []
keep_relevant batch seen (raw_index ∷ rest) =
    elim (accepted (length batch) seen (pred_ℤ raw_index)) [
      | none ↦ keep_relevant batch seen rest
      | some index ↦ elim (get_elem? batch index) [
        | none ↦ keep_relevant batch (index ∷ seen) rest
        | some posting ↦ posting ∷ keep_relevant batch (index ∷ seen) rest
      ]
    ]

-- The client: the answer to the n-th call, given the messages and `max_tokens`.
abbrev pub TriageLlm : Type 0
TriageLlm = ℕ → List Message → ℕ → Result (List ℤ)

-- What one call comes to: the postings that its answer keeps, or its exception.
unfoldable pub received : List RawPosting → ℕ → Result (List ℤ) → Result (List RawPosting) × ℕ
unfolding keep_relevant
received batch calls (ok relevant_indices) =
    (ok (keep_relevant batch [] relevant_indices), calls + 1)
received batch calls (err e) = (err e, calls + 1)

-- `except (LLMError, ValueError)`: the next attempt; any other exception ends the loop.
unfoldable pub retry :
    Exec ℕ (List RawPosting) → Result (List RawPosting) × ℕ → Result (List RawPosting) × ℕ
retry again (ok kept, calls) = (ok kept, calls)
retry again (err e, calls) = if is_llm_or_value_error e then again calls else (err e, calls)

-- The prompt file `posting_triage`, as `load_prompt` reads it, is a parameter. The state is the
-- number of calls made.
module _ (posting_triage : String) (llm : TriageLlm) where
  unfoldable pub triage_messages : String → List RawPosting → List Message
  triage_messages target batch =
      record { role = Role.system; content = posting_triage }
      ∷ record { role = Role.user; content = build_triage_user_message target batch }
      ∷ []

  unfoldable pub triage_batch : String → List RawPosting → Exec ℕ (List RawPosting)
  unfolding received triage_messages
  triage_batch target batch calls =
      received batch calls (llm calls (triage_messages target batch) triage_max_tokens)

  -- The attempts that are left; after the last one the whole batch passes.
  unfoldable pub triage_attempt : ℕ → String → List RawPosting → Exec ℕ (List RawPosting)
  unfolding retry
  triage_attempt zero target batch calls = (ok batch, calls)
  triage_attempt (suc attempts) target batch calls =
      retry (triage_attempt attempts target batch) (triage_batch target batch calls)

  unfoldable pub triage_batch_with_retry : String → List RawPosting → Exec ℕ (List RawPosting)
  triage_batch_with_retry = triage_attempt triage_attempts

  unfoldable pub triage_each : String → List (List RawPosting) → Exec ℕ (List RawPosting)
  triage_each target [] = pure []
  triage_each target (batch ∷ rest) = do
    kept ← triage_batch_with_retry target batch
    more ← triage_each target rest
    pure (kept ++ more)

  unfoldable pub triage_postings : Profile → List RawPosting → Exec ℕ (List RawPosting)
  triage_postings profile [] = pure []
  triage_postings profile (posting ∷ postings) = do
    let all_batches = batches (posting ∷ postings)
    let passed_through = flatten (drop max_triage_batches all_batches)
    kept ← triage_each (resolve_target profile) (take max_triage_batches all_batches)
    pure (kept ++ passed_through)
