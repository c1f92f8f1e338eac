-- ===== src/Radar/Screener/Outage.antt =====
-- `screen_postings` of app/services/radar/screener.py: the count of consecutive failures.
use ai_career_os.Common.{
  ℕ, ◌+◌, ◌≤◌, String, ◌≡◌, refl, ap, ◌∙◌, true, List, [], ◌∷◌, ◌++◌, arith, length, take, drop,
  take-append-drop, inl, inr, ◌⊎◌,
}
use ai_career_os.Common.Exec.{Exception, Result, ok, err, is_llm_or_value_error}
use ai_career_os.Radar.Model.{Profile, Posting, PostingScreenResult, Message}
use ai_career_os.Radar.Screener.{
  ScreenLlm, Screening, in_front, stopped, screen_round, screen_messages, screen_max_tokens,
  screen_posting, screen_loop, screen_postings,
}

-- Every call raises an error that the loop handles.
abbrev pub IsDown : ScreenLlm → Type 0
IsDown llm =
    (n : ℕ) (messages : List Message) (max_tokens : ℕ)
    → (e : Exception) × (llm n messages max_tokens ≡ err e) × (is_llm_or_value_error e ≡ true)

-- Only handled errors are raised, and after one that fails the next call succeeds.
pub record FailsAlone (llm : ScreenLlm) : Type 0 where
  pub handled :
      (n : ℕ) (messages : List Message) (max_tokens : ℕ) (e : Exception)
      → llm n messages max_tokens ≡ err e
      → is_llm_or_value_error e ≡ true
  pub recovers :
      (n : ℕ) (messages messages' : List Message) (max_tokens max_tokens' : ℕ) (e : Exception)
      → llm n messages max_tokens ≡ err e
      → (r : PostingScreenResult) × (llm (n + 1) messages' max_tokens' ≡ ok r)

module _ (posting_screen : String) (llm : ScreenLlm) (profile : Profile) where
  module _ (down : IsDown llm) where
    -- with one failure behind it, the loop stops at the next
    second_failure :
        (batch : List Posting) (calls : ℕ)
        → (calls' : ℕ) × (screen_loop posting_screen llm profile batch 1 calls 0
            ≡ stopped batch calls' (ok 0))
          × (calls' ≤ calls + 1)
    unfolding screen_loop screen_posting
    second_failure [] calls = (calls, refl, omega arith)
    second_failure (p ∷ rest) calls =
        let (e, raised, handled) =
          down calls (screen_messages posting_screen llm profile p) screen_max_tokens in
        (calls + 1, rw (raised, screen_round) (rw handled), omega arith)

    loop_down :
        (batch : List Posting) (calls : ℕ)
        → (calls' : ℕ) × (screen_loop posting_screen llm profile batch 0 calls 0
            ≡ stopped batch calls' (ok 0))
          × (calls' ≤ calls + 2)
    unfolding screen_loop screen_posting
    loop_down [] calls = (calls, refl, omega arith)
    loop_down (p ∷ rest) calls =
        let (e, raised, handled) =
          down calls (screen_messages posting_screen llm profile p) screen_max_tokens in
        let (calls', same, cheap) = second_failure rest (calls + 1) in
        (
          calls',
          rw (raised, screen_round) (rw handled (ap (in_front p) same)),
          omega (arith, cheap),
        )

    -- With an unreachable provider a run makes at most two calls, scores nothing and leaves every
    -- row as it was, whatever the limit.
    pub screen_postings_down :
        (limit : ℕ) (postings : List Posting) (calls : ℕ)
        → (calls' : ℕ) × (screen_postings posting_screen llm profile limit postings calls
            ≡ stopped postings calls' (ok 0))
          × (calls' ≤ calls + 2)
    unfolding screen_postings
    screen_postings_down limit postings calls =
        let (calls', same, cheap) = loop_down (take limit postings) calls in
        (
          calls',
          ap (λ (run : Screening). record run { postings = run.postings ++ drop limit postings })
                same
              ∙ ap (λ all. stopped all calls' (ok 0)) (take-append-drop limit postings),
          cheap,
        )

  module _ (h : FailsAlone llm) where
    -- the loop is not one failure from its end, or its next call succeeds
    Fine : ℕ → ℕ → Type 0
    Fine failures calls =
        (failures ≡ 0)
        ⊎ ((messages : List Message) (max_tokens : ℕ)
            → (r : PostingScreenResult) × (llm calls messages max_tokens ≡ ok r))

    Completes : List Posting → ℕ → Screening → Type 0
    Completes batch calls run =
        (run.calls ≡ calls + length batch) × (total : ℕ) × (run.result ≡ ok total)

    round-Completes :
        (p : Posting) (rest : List Posting) (failures calls scored : ℕ)
        (answer : Result PostingScreenResult) (continue : ℕ → ℕ → Screening)
        → screen_posting posting_screen llm profile calls p ≡ answer
        → Fine failures calls
        → ((f s : ℕ) → Fine f (calls + 1) → Completes rest (calls + 1) (continue f s))
        → Completes
            (p ∷ rest)
            calls
            (screen_round continue p rest failures (calls + 1) scored answer)
    unfolding screen_round Fine Completes screen_posting
    round-Completes p rest failures calls scored (ok r) continue e fine next =
        let (same, total, returned) = next 0 (scored + 1) (inl refl) in
        (omega (arith, same), total, returned)
    round-Completes p rest failures calls scored (err x) continue e (inr succeeds) next =
        let (r, answered) =
          succeeds (screen_messages posting_screen llm profile p) screen_max_tokens in
        absurd (cc (e, answered))
    round-Completes p rest failures calls scored (err x) continue e (inl zero_failures) next =
        let (same, total, returned) = next 1 scored (
          inr (λ m t.
            h.recovers calls (screen_messages posting_screen llm profile p) m screen_max_tokens t x
              e)) in
        rw (h.handled calls _ _ x e, zero_failures) (omega (arith, same), total, returned)

    loop-Completes :
        (batch : List Posting) (failures calls scored : ℕ)
        → Fine failures calls
        → Completes batch calls (screen_loop posting_screen llm profile batch failures calls scored)
    unfolding screen_loop Completes
    loop-Completes [] failures calls scored fine = (omega arith, scored, refl)
    loop-Completes (p ∷ rest) failures calls scored fine =
        round-Completes p rest failures calls scored
          (screen_posting posting_screen llm profile calls p)
          (λ f s. screen_loop posting_screen llm profile rest f (calls + 1) s) refl fine
          (λ f s. loop-Completes rest f (calls + 1) s)

    -- If no two calls in a row fail, and only with errors that are handled, the run returns after
    -- one call for each of the rows up to the limit: a failure alone costs no other row its score.
    pub screen_postings_completes :
        (limit : ℕ) (postings : List Posting) (calls : ℕ)
        → ((screen_postings posting_screen llm profile limit postings calls).calls
            ≡ calls + length (take limit postings))
          × (total : ℕ) × ((screen_postings posting_screen llm profile limit postings calls).result
              ≡ ok total)
    unfolding screen_postings Completes Fine
    screen_postings_completes limit postings calls =
        loop-Completes (take limit postings) 0 calls 0 (inl refl)
