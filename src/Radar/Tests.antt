-- ===== src/Radar/Tests.antt =====
-- Triage and screening on concrete boards, clients and rows.
use native.Mathlib.Numerals.{unary_clauses}
use ai_career_os.Common.{
  ℕ, zero, suc, ◌+◌, ◌*◌, ◌≤◌, ◌≡◌, refl, true, false, List, [], ◌∷◌, ◌++◌, take, drop, length,
  Within, ◌↔◌,
}
use ai_career_os.Common.Text.{contains}
use ai_career_os.Common.Exec.{Exception, ok, err, is_llm_or_value_error}
use ai_career_os.Radar.Model.{RawPosting, PostingScreenResult, Message}
use ai_career_os.Radar.Triage.{
  ℤ, triage_postings, batches, keep_relevant, max_triage_batches, triage_attempts,
}
use ai_career_os.Radar.Triage.FailOpen
use ai_career_os.Radar.Screener.{screen_posting, screen_postings, matches_criteria, stopped}
use ai_career_os.Radar.Screener.Criteria.{Wants, matches_criteria-iff-Wants}
use ai_career_os.Radar.Screener.Loop.{Ran, screen_postings-Ran}
use ai_career_os.Radar.Screener.Outage
use ai_career_os.Radar.Samples.{
  role, candidate, board, picky, unreachable, ascii, wanted, rows, flaky, no_screening, scored_80,
}

picky-RaisesHandled : FailOpen.RaisesHandled picky
picky-RaisesHandled n messages max_tokens e h = cc

picky_run :
    keep_relevant board [] (ℤ.pos 3 ∷ ℤ.pos 1 ∷ ℤ.pos 3 ∷ ℤ.pos 9 ∷ ℤ.negsuc 0 ∷ [])
    ≡ role "c" "Platform Engineer" true ∷ role "a" "Backend Engineer" false ∷ []
unfolding keep_relevant
picky_run = refl

triage_postings-kept_example :
    (front : List RawPosting) × (calls' : ℕ) × (triage_postings "prompt" picky candidate board 0
      ≡ (ok (front ++ drop 600 board), calls'))
    × Within (front ++ drop 600 board) board
    × (calls' ≤ 0 + 20)
triage_postings-kept_example =
    FailOpen.triage_postings-kept "prompt" picky picky-RaisesHandled candidate board 0

triage_postings_down_example :
    triage_postings "prompt" unreachable candidate board 0
    ≡ (ok board, 0 + length (take max_triage_batches (batches board)) * triage_attempts)
triage_postings_down_example =
    FailOpen.triage_postings_down "prompt" unreachable
      (λ n m t. (Exception.llm_error "timeout", refl, refl)) candidate board 0

matches_criteria-iff-Wants_example :
    (matches_criteria ascii (role "a" "Backend Engineer" false) wanted ≡ true)
    ↔ Wants ascii (role "a" "Backend Engineer" false) wanted
matches_criteria-iff-Wants_example =
    matches_criteria-iff-Wants ascii (role "a" "Backend Engineer" false) wanted

matches_run :
    (matches_criteria ascii (role "a" "Backend Engineer" false) wanted ≡ true)
    × (matches_criteria ascii (role "b" "Engineer Intern" false) wanted ≡ false)
unfolding matches_criteria contains
matches_run = (refl, refl)

screen_postings-Ran_example :
    Ran
      (screen_posting "prompt" flaky candidate)
      rows
      0
      0
      2
      (screen_postings "prompt" flaky candidate 2 rows 0)
screen_postings-Ran_example = screen_postings-Ran "prompt" flaky candidate 2 rows 0

flaky_run : (screen_postings "prompt" flaky candidate 3 rows 0).result ≡ ok 2
unfolding screen_postings take
flaky_run = refl

screen_postings_down_example :
    (calls' : ℕ) × (screen_postings "prompt" no_screening candidate 20 rows 0
      ≡ stopped rows calls' (ok 0))
    × (calls' ≤ 0 + 2)
screen_postings_down_example =
    Outage.screen_postings_down "prompt" no_screening candidate
      (λ n m t. (Exception.value_error "not JSON", refl, refl)) 20 rows 0

flaky-FailsAlone : Outage.FailsAlone flaky
flaky-FailsAlone = record { handled = handled; recovers = recovers }
  where
    handled :
        (n : ℕ) (messages : List Message) (max_tokens : ℕ) (e : Exception)
        → flaky n messages max_tokens ≡ err e
        → is_llm_or_value_error e ≡ true
    handled zero m t e h = cc
    handled (suc zero) m t e h = cc
    handled (suc (suc n)) m t e h = cc

    recovers :
        (n : ℕ) (messages messages' : List Message) (max_tokens max_tokens' : ℕ) (e : Exception)
        → flaky n messages max_tokens ≡ err e
        → (r : PostingScreenResult) × (flaky (n + 1) messages' max_tokens' ≡ ok r)
    recovers zero m m' t t' e h = absurd cc
    recovers (suc zero) m m' t t' e h = (scored_80, refl)
    recovers (suc (suc n)) m m' t t' e h = (scored_80, simp unary_clauses refl)

screen_postings_completes_example :
    ((screen_postings "prompt" flaky candidate 3 rows 0).calls ≡ 0 + length (take 3 rows))
    × (total : ℕ) × ((screen_postings "prompt" flaky candidate 3 rows 0).result ≡ ok total)
screen_postings_completes_example =
    Outage.screen_postings_completes "prompt" flaky candidate flaky-FailsAlone 3 rows 0
