-- ===== src/Radar/Screener/Loop.antt =====
-- `screen_postings` of app/services/radar/screener.py: the rows and the calls of a run.
use ai_career_os.Common.{
  ℕ, suc, ◌+◌, ◌≤◌, String, ◌≡◌, refl, some, List, [], ◌∷◌, ◌++◌, arith, length, take, drop,
  take-append-drop, length-take-le, Bool-cases, inl, inr, leb, subst,
}
use ai_career_os.Common.Exec.{Exception, Result, ok, err, is_llm_or_value_error}
use ai_career_os.Radar.Model.{Profile, Posting, PostingState, PostingScreenResult}
use ai_career_os.Radar.Screener.{
  ScreenLlm, Screening, max_consecutive_failures, apply_score, stopped, screen_round,
  screen_posting, screen_loop, screen_postings,
}

-- What the client answers about a row, by the number of calls before.
abbrev pub Client : Type 0
Client = ℕ → Posting → Result PostingScreenResult

-- the row with the score and the reason of an answer
abbrev pub with_answer : Posting → PostingScreenResult → Posting
with_answer p r = record p {
  screen_score = some r.fit_score;
  screen_reason = some r.reason;
  state = PostingState.screened;
}

-- The rows before and after, with the number that got a score: a row has the score and the reason
-- that the client answered about it, and is screened, or it is as it was.
pub data Scored (client : Client) : List Posting → List Posting → ℕ → Type 0 where
  none_left : Scored client [] [] 0
  left_alone :
      (p : Posting) {ps qs : List Posting} {n : ℕ}
      → Scored client ps qs n
      → Scored client (p ∷ ps) (p ∷ qs) n
  got_score :
      (p : Posting) (r : PostingScreenResult) (calls : ℕ) {ps qs : List Posting} {n : ℕ}
      → client calls p ≡ ok r
      → Scored client ps qs n
      → Scored client (p ∷ ps) (with_answer p r ∷ qs) (suc n)

Scored-refl : {client : Client} (ps : List Posting) → Scored client ps ps 0
Scored-refl [] = none_left
Scored-refl (p ∷ ps) = left_alone p (Scored-refl ps)

Scored-append :
    {client : Client} {ps qs : List Posting} {n : ℕ} (rest : List Posting)
    → Scored client ps qs n
    → Scored client (ps ++ rest) (qs ++ rest) n
Scored-append rest none_left = Scored-refl rest
Scored-append rest (left_alone p s) = left_alone p (Scored-append rest s)
Scored-append rest (got_score p r calls e s) = got_score p r calls e (Scored-append rest s)

-- the value of a run that returns
abbrev pub Counts : ℕ → Result ℕ → Type 0
Counts n (ok total) = total ≡ n
Counts n (err e) = Unit

-- What a run that began at `calls` calls and `scored` scores has done to the rows `batch`.
pub record Ran (client : Client) (batch : List Posting) (calls scored cost : ℕ) (run : Screening)
    : Type 0 where
  pub gained : ℕ
  pub rows : Scored client batch run.postings gained
  pub counted : Counts (scored + gained) run.result
  pub cheap : run.calls ≤ calls + cost

Counts-eq : {m n : ℕ} → m ≡ n → (result : Result ℕ) → Counts m result → Counts n result
Counts-eq {m} {n} e result h = subst (λ k. Counts k result) e h

stopped-Ran :
    {client : Client} (batch : List Posting) (calls scored cost : ℕ)
    → Ran client batch calls scored cost (stopped batch calls (ok scored))
stopped-Ran batch calls scored cost = record {
  gained = 0;
  rows = Scored-refl batch;
  counted = omega arith;
  cheap = omega arith;
}

cut-Ran :
    {client : Client} (batch : List Posting) (calls scored cost : ℕ) (e : Exception)
    → Ran client batch calls scored cost (stopped batch calls (err e))
cut-Ran batch calls scored cost e = record {
  gained = 0;
  rows = Scored-refl batch;
  counted = tt;
  cheap = omega arith;
}

-- one round keeps the account, if the rest of the loop does
round-Ran :
    {client : Client} (continue : ℕ → ℕ → Screening) (p : Posting) (rest : List Posting)
    (failures calls scored cost asked_at : ℕ) (answer : Result PostingScreenResult)
    → client asked_at p ≡ answer
    → ((f s : ℕ) → Ran client rest calls s cost (continue f s))
    → Ran client
        (p ∷ rest)
        calls
        scored
        cost
        (screen_round continue p rest failures calls scored answer)
unfolding screen_round apply_score
round-Ran continue p rest failures calls scored cost asked_at (ok r) asked next =
    let run = next 0 (scored + 1) in
    record {
      gained = suc run.gained;
      rows = got_score p r asked_at asked run.rows;
      counted = Counts-eq (omega arith) (continue 0 (scored + 1)).result run.counted;
      cheap = run.cheap;
    }
round-Ran continue p rest failures calls scored cost asked_at (err e) asked next =
    elim (Bool-cases (is_llm_or_value_error e)) [
      | inr fatal ↦ rw fatal (cut-Ran (p ∷ rest) calls scored cost e)
      | inl handled ↦ elim (Bool-cases (leb max_consecutive_failures (failures + 1))) [
        | inl enough ↦ rw (handled, enough) (stopped-Ran (p ∷ rest) calls scored cost)
        | inr more ↦
            let run = next (failures + 1) scored in
            rw (handled, more)
              (record {
                gained = run.gained;
                rows = left_alone p run.rows;
                counted = run.counted;
                cheap = run.cheap;
              })
      ]
    ]

module _ (posting_screen : String) (llm : ScreenLlm) (profile : Profile) where
  loop-Ran :
      (batch : List Posting) (failures calls scored : ℕ)
      → Ran
          (screen_posting posting_screen llm profile)
          batch
          calls
          scored
          (length batch)
          (screen_loop posting_screen llm profile batch failures calls scored)
  unfolding screen_loop
  loop-Ran [] failures calls scored = stopped-Ran [] calls scored 0
  loop-Ran (p ∷ rest) failures calls scored =
      let ran =
        round-Ran (λ f s. screen_loop posting_screen llm profile rest f (calls + 1) s) p rest
          failures (calls + 1) scored (length rest) calls
          (screen_posting posting_screen llm profile calls p) refl
          (λ f s. loop-Ran rest f (calls + 1) s) in
      record {
        gained = ran.gained;
        rows = ran.rows;
        counted = ran.counted;
        cheap = omega (arith, ran.cheap);
      }

  -- Whatever the client answers or raises, a run on any rows gives some of them the score and the
  -- reason that the client answered about them, sets those to screened, and leaves all else and the
  -- order as they were; the number that it returns is how many it scored; and it makes at most
  -- `limit` calls.
  pub screen_postings-Ran :
      (limit : ℕ) (postings : List Posting) (calls : ℕ)
      → Ran
          (screen_posting posting_screen llm profile)
          postings
          calls
          0
          limit
          (screen_postings posting_screen llm profile limit postings calls)
  unfolding screen_postings
  screen_postings-Ran limit postings calls =
      let ran = loop-Ran (take limit postings) 0 calls 0 in
      let run = screen_loop posting_screen llm profile (take limit postings) 0 calls 0 in
      record {
        gained = ran.gained;
        rows =
            subst
              (λ all.
                Scored (screen_posting posting_screen llm profile) all
                  (run.postings ++ drop limit postings) ran.gained)
              (take-append-drop limit postings) (Scored-append (drop limit postings) ran.rows);
        counted = ran.counted;
        cheap = omega (arith, ran.cheap, length-take-le limit postings);
      }
