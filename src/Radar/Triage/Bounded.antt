-- ===== src/Radar/Triage/Bounded.antt =====
-- `triage_postings` of app/services/radar/triage.py with any client.
use ai_career_os.Common.{
  ℕ, zero, suc, ◌+◌, ◌*◌, ◌≤◌, String, ap, ◌∙◌, subst, List, [], ◌∷◌, ◌++◌, arith, length, take,
  drop, flatten, Within, Within-refl, Within-append, length-take-le, Bool-cases, inl, inr,
}
use ai_career_os.Common.Exec.{
  Result, ok, err, Exec, ◌>>=◌, pure, is_llm_or_value_error, Post, Post-mono, Post->>=,
}
use ai_career_os.Radar.Model.{RawPosting, Profile}
use ai_career_os.Radar.Triage.{
  TriageLlm, max_triage_batches, resolve_target, retry, triage_attempts, batches, triage_batch,
  triage_attempt, ℤ, received, triage_batch_with_retry, triage_each, triage_postings,
}
use ai_career_os.Radar.Triage.Select.{keep_relevant-Within}
use ai_career_os.Radar.Triage.Batches.{drop-batches, split_batches}

-- at most `cost` calls, and a value within the batch
abbrev pub Bounded : List RawPosting → ℕ → Result (List RawPosting) × ℕ → Type 0
Bounded batch limit =
    Post (λ kept calls. Within kept batch × (calls ≤ limit)) (λ calls. calls ≤ limit)

retry-Bounded :
    (batch : List RawPosting) (calls limit : ℕ) (again : Exec ℕ (List RawPosting))
    (answer : Result (List ℤ))
    → calls + 1 ≤ limit
    → Bounded batch limit (again (calls + 1))
    → Bounded batch limit (retry again (received batch calls answer))
unfolding retry received
retry-Bounded batch calls limit again (ok raws) le next = (keep_relevant-Within batch raws, le)
retry-Bounded batch calls limit again (err e) le next =
    elim (Bool-cases (is_llm_or_value_error e)) [
      | inl handled ↦ rw handled next
      | inr not_handled ↦ rw not_handled le
    ]

module _ (posting_triage : String) (llm : TriageLlm) where
  attempt-Bounded :
      (attempts : ℕ) (target : String) (batch : List RawPosting) (calls limit : ℕ)
      → calls + attempts ≤ limit
      → Bounded batch limit (triage_attempt posting_triage llm attempts target batch calls)
  unfolding triage_attempt triage_batch
  attempt-Bounded zero target batch calls limit le = (Within-refl batch, omega arith)
  attempt-Bounded (suc attempts) target batch calls limit le =
      retry-Bounded batch calls limit (triage_attempt posting_triage llm attempts target batch) _
        (omega arith) (attempt-Bounded attempts target batch (calls + 1) limit (omega arith))

  each-Bounded :
      (target : String) (bs : List (List RawPosting)) (calls limit : ℕ)
      → calls + length bs * triage_attempts ≤ limit
      → Bounded (flatten bs) limit (triage_each posting_triage llm target bs calls)
  unfolding triage_each triage_batch_with_retry
  each-Bounded target [] calls limit le = (Within-refl [], omega arith)
  each-Bounded target (b ∷ bs) calls limit le =
      Post->>= (λ kept c. Within kept b × (c ≤ calls + triage_attempts))
        (λ kept c. Within kept (b ++ flatten bs) × (c ≤ limit)) (λ c. c ≤ limit)
        (triage_batch_with_retry posting_triage llm target b)
        (λ kept. do more ← triage_each posting_triage llm target bs; pure (kept ++ more)) calls
        (Post-mono _ (λ kept c. Within kept b × (c ≤ calls + triage_attempts)) _ (λ c. c ≤ limit) _
          (λ a c h. h) (λ c h. omega (arith, h))
          (attempt-Bounded triage_attempts target b calls (calls + triage_attempts) (omega arith)))
        (λ kept c first.
          Post->>= (λ more c. Within more (flatten bs) × (c ≤ limit))
            (λ kept c. Within kept (b ++ flatten bs) × (c ≤ limit)) (λ c. c ≤ limit)
            (triage_each posting_triage llm target bs) (λ more. pure (kept ++ more)) c
            (each-Bounded target bs c limit (omega (arith, first.1)))
            (λ more c rest. (Within-append kept more b (flatten bs) first.0 rest.0, rest.1)))

  -- Whatever the client answers or raises, a run makes at most 20 calls, and what it returns holds
  -- only postings of the board, none of them more often than the board does.
  pub triage_postings-Bounded :
      (profile : Profile) (ps : List RawPosting) (calls : ℕ)
      → Bounded ps (calls + 20) (triage_postings posting_triage llm profile ps calls)
  unfolding triage_postings
  triage_postings-Bounded profile [] calls = (Within-refl [], omega arith)
  triage_postings-Bounded profile (p ∷ ps) calls =
      let bs = batches (p ∷ ps) in
      let front = take max_triage_batches bs in
      Post->>= (λ kept c. Within kept (flatten front) × (c ≤ calls + 20))
        (λ kept c. Within kept (p ∷ ps) × (c ≤ calls + 20)) (λ c. c ≤ calls + 20)
        (triage_each posting_triage llm (resolve_target profile) front)
        (λ kept. pure (kept ++ flatten (drop max_triage_batches bs))) calls
        (each-Bounded (resolve_target profile) front calls (calls + 20)
          (omega (arith, length-take-le max_triage_batches bs)))
        (λ kept c h. (
          subst (λ all. Within (kept ++ flatten (drop max_triage_batches bs)) all)
              (ap (λ back. flatten front ++ back) (drop-batches max_triage_batches (p ∷ ps))
                ∙ split_batches max_triage_batches (p ∷ ps))
              (Within-append kept (flatten (drop max_triage_batches bs)) (flatten front)
                (flatten (drop max_triage_batches bs)) h.0 (Within-refl _)),
          h.1,
        ))
