-- ===== src/Radar/Triage/FailOpen.antt =====
-- `triage_postings` of app/services/radar/triage.py: what it keeps, and its calls.
use ai_career_os.Common.{
  ℕ, zero, suc, ◌+◌, ◌*◌, ◌≤◌, String, ◌≡◌, refl, ap, subst, ◌∙◌, true, List, [], ◌∷◌, ◌++◌, arith,
  length, take, drop, flatten, Within, drop-nil, Within-refl, Within-append, length-take-le,
}
use ai_career_os.Common.Exec.{
  Exception, Result, ok, err, Exec, ◌>>=◌, >>=-ok, pure, is_llm_or_value_error,
}
use ai_career_os.Radar.Model.{RawPosting, Profile, Message}
use ai_career_os.Radar.Triage.{
  TriageLlm, max_triage_batches, resolve_target, retry, triage_attempts, batches, triage_batch,
  triage_attempt, ℤ, received, triage_messages, triage_max_tokens, triage_batch_with_retry,
  triage_each, triage_postings,
}
use ai_career_os.Radar.Triage.Select.{keep_relevant-Within}
use ai_career_os.Radar.Triage.Batches.{drop-batches, split_batches}

-- The client raises nothing but `LLMError` and `ValueError`.
abbrev pub RaisesHandled : TriageLlm → Type 0
RaisesHandled llm =
    (n : ℕ) (messages : List Message) (max_tokens : ℕ) (e : Exception)
    → llm n messages max_tokens ≡ err e
    → is_llm_or_value_error e ≡ true

-- The provider cannot be reached: every call raises one of the two.
abbrev pub IsDown : TriageLlm → Type 0
IsDown llm =
    (n : ℕ) (messages : List Message) (max_tokens : ℕ)
    → (e : Exception) × (llm n messages max_tokens ≡ err e) × (is_llm_or_value_error e ≡ true)

-- A run that returns postings of the batch after at most `cost` calls.
pub record Kept (batch : List RawPosting) (calls cost : ℕ) (run : Result (List RawPosting) × ℕ)
    : Type 0 where
  pub kept : List RawPosting
  pub calls_after : ℕ
  pub returned : run ≡ (ok kept, calls_after)
  pub within : Within kept batch
  pub cheap : calls_after ≤ calls + cost

-- What a run comes to that may still raise one of the two.
abbrev Outcome : List RawPosting → ℕ → Result (List RawPosting) × ℕ → Type 0
Outcome batch calls (ok kept, calls') = Within kept batch × (calls' ≡ calls + 1)
Outcome batch calls (err e, calls') = (is_llm_or_value_error e ≡ true) × (calls' ≡ calls + 1)

received-Outcome :
    (batch : List RawPosting) (calls : ℕ) (answer : Result (List ℤ))
    → ((e : Exception) → answer ≡ err e → is_llm_or_value_error e ≡ true)
    → Outcome batch calls (received batch calls answer)
unfolding received
received-Outcome batch calls (ok raws) h = (keep_relevant-Within batch raws, refl)
received-Outcome batch calls (err e) h = (h e refl, refl)

retry-Kept :
    (batch : List RawPosting) (calls attempts : ℕ) (again : Exec ℕ (List RawPosting))
    (run : Result (List RawPosting) × ℕ)
    → Outcome batch calls run
    → Kept batch (calls + 1) attempts (again (calls + 1))
    → Kept batch calls (suc attempts) (retry again run)
unfolding retry
retry-Kept batch calls attempts again (ok kept, calls') o next = record {
  kept = kept;
  calls_after = calls';
  returned = refl;
  within = o.0;
  cheap = omega arith;
}
retry-Kept batch calls attempts again (err e, calls') o next = record {
  kept = next.kept;
  calls_after = next.calls_after;
  returned = rw (o.0, o.1) next.returned;
  within = next.within;
  cheap = omega (arith, next.cheap);
}

module _ (posting_triage : String) (llm : TriageLlm) (h : RaisesHandled llm) where
  attempt-Kept :
      (attempts : ℕ) (target : String) (batch : List RawPosting) (calls : ℕ)
      → Kept batch calls attempts (triage_attempt posting_triage llm attempts target batch calls)
  unfolding triage_attempt triage_batch
  attempt-Kept zero target batch calls = record {
    kept = batch;
    calls_after = calls;
    returned = refl;
    within = Within-refl batch;
    cheap = omega arith;
  }
  attempt-Kept (suc attempts) target batch calls =
      retry-Kept batch calls attempts (triage_attempt posting_triage llm attempts target batch) _
        (received-Outcome batch calls _ (h calls _ _))
        (attempt-Kept attempts target batch (calls + 1))

  each-Kept :
      (target : String) (bs : List (List RawPosting)) (calls : ℕ)
      → Kept
          (flatten bs)
          calls
          (length bs * triage_attempts)
          (triage_each posting_triage llm target bs calls)
  unfolding triage_each triage_batch_with_retry
  each-Kept target [] calls = record {
    kept = [];
    calls_after = calls;
    returned = refl;
    within = Within-refl [];
    cheap = omega arith;
  }
  each-Kept target (b ∷ bs) calls =
      let first = attempt-Kept triage_attempts target b calls in
      let rest = each-Kept target bs first.calls_after in
      record {
        kept = first.kept ++ rest.kept;
        calls_after = rest.calls_after;
        returned =
            >>=-ok (triage_batch_with_retry posting_triage llm target b)
              (λ kept. do more ← triage_each posting_triage llm target bs; pure (kept ++ more))
              calls first.returned
            ∙ >>=-ok (triage_each posting_triage llm target bs) (λ more. pure (first.kept ++ more))
                first.calls_after rest.returned;
        within = Within-append first.kept rest.kept b (flatten bs) first.within rest.within;
        cheap = omega (arith, first.cheap, rest.cheap);
      }

  -- Where the client raises only what triage handles, a run on any board returns. It keeps only
  -- postings of the board, none of them more often than the board has it; what lies beyond the
  -- first 600 postings is kept as it is, at the end; and at most 20 calls are made.
  pub triage_postings-kept :
      (profile : Profile) (ps : List RawPosting) (calls : ℕ)
      → (front : List RawPosting) × (calls' : ℕ) × (triage_postings posting_triage llm profile ps
            calls
          ≡ (ok (front ++ drop 600 ps), calls'))
        × Within (front ++ drop 600 ps) ps
        × (calls' ≤ calls + 20)
  unfolding triage_postings
  triage_postings-kept profile [] calls =
      ([], calls, rw drop-nil, rw drop-nil (Within-refl []), omega arith)
  triage_postings-kept profile (p ∷ ps) calls =
      let bs = batches (p ∷ ps) in
      let run = each-Kept (resolve_target profile) (take max_triage_batches bs) calls in
      (
        run.kept,
        run.calls_after,
        >>=-ok
              (triage_each posting_triage llm (resolve_target profile) (take max_triage_batches bs))
              (λ kept. pure (kept ++ flatten (drop max_triage_batches bs))) calls run.returned
            ∙ ap (λ (back : List RawPosting). (ok (run.kept ++ back), run.calls_after))
                (drop-batches max_triage_batches (p ∷ ps)),
        subst (λ all. Within (run.kept ++ drop 600 (p ∷ ps)) all)
            (split_batches max_triage_batches (p ∷ ps))
            (Within-append run.kept (drop 600 (p ∷ ps)) (flatten (take max_triage_batches bs))
              (drop 600 (p ∷ ps)) run.within (Within-refl (drop 600 (p ∷ ps)))),
        omega (arith, run.cheap, length-take-le max_triage_batches bs),
      )

module _ (posting_triage : String) (llm : TriageLlm) (down : IsDown llm) where
  attempt_down :
      (attempts : ℕ) (target : String) (batch : List RawPosting) (calls : ℕ)
      → triage_attempt posting_triage llm attempts target batch calls ≡ (ok batch, calls + attempts)
  unfolding triage_attempt triage_batch received
  attempt_down zero target batch calls = ground arith
  attempt_down (suc attempts) target batch calls =
      let (e, raised, handled) =
        down calls (triage_messages posting_triage llm target batch) triage_max_tokens in
      rw (raised, received, retry)
        (rw handled (attempt_down attempts target batch (calls + 1) ∙ ground arith))

  each_down :
      (target : String) (bs : List (List RawPosting)) (calls : ℕ)
      → triage_each posting_triage llm target bs calls
        ≡ (ok (flatten bs), calls + length bs * triage_attempts)
  unfolding triage_each triage_batch_with_retry
  each_down target [] calls = ground arith
  each_down target (b ∷ bs) calls =
      >>=-ok (triage_batch_with_retry posting_triage llm target b)
        (λ kept. do more ← triage_each posting_triage llm target bs; pure (kept ++ more)) calls
        (attempt_down triage_attempts target b calls)
      ∙ >>=-ok (triage_each posting_triage llm target bs) (λ more. pure (b ++ more))
          (calls + triage_attempts) (each_down target bs (calls + triage_attempts))
      ∙ ground arith

  -- If every call raises an LLM or value error, the whole board passes, in its order, after two
  -- calls for each of the first ten batches.
  pub triage_postings_down :
      (profile : Profile) (ps : List RawPosting) (calls : ℕ)
      → triage_postings posting_triage llm profile ps calls
        ≡ (ok ps, calls + length (take max_triage_batches (batches ps)) * triage_attempts)
  unfolding triage_postings
  triage_postings_down profile [] calls = unfold batches take in ground arith
  triage_postings_down profile (p ∷ ps) calls =
      let bs = batches (p ∷ ps) in
      >>=-ok (triage_each posting_triage llm (resolve_target profile) (take max_triage_batches bs))
        (λ kept. pure (kept ++ flatten (drop max_triage_batches bs))) calls
        (each_down (resolve_target profile) (take max_triage_batches bs) calls)
      ∙ ap
          (λ (back : List RawPosting).
            (ok back, calls + length (take max_triage_batches bs) * triage_attempts))
          (ap (λ (back : List RawPosting). flatten (take max_triage_batches bs) ++ back)
              (drop-batches max_triage_batches (p ∷ ps))
            ∙ split_batches max_triage_batches (p ∷ ps))
