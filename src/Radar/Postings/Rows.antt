-- ===== src/Radar/Postings/Rows.antt =====
-- What a poll may do to the rows of the postings, and the rows of a table with a primary key.
use ai_career_os.Common.{
  ℕ, ◌<◌, ◌≡◌, refl, sym, ◌∙◌, Bool, true, false, not, ◌&&◌, Option, none, some, List, [], ◌∷◌,
  ◌++◌, map, arith, ◌==◌, inl, inr, ◌⊎◌, any, all, All, find?,
}
use ai_career_os.Radar.Model.{Posting, PostingState}
use ai_career_os.Radar.Database.{Database, unique_keys, fits_columns}

-- One row before and after: its identity, its age and its job are the same. Unless it was `new`,
-- so are its state, its score and the reason of the score; a `new` row stays so or gets a score.
pub record Keeps (p q : Posting) : Type 0 where
  pub same_id : q.id ≡ p.id
  pub same_company : q.watched_company_id ≡ p.watched_company_id
  pub same_external_id : q.external_id ≡ p.external_id
  pub same_job : q.job_id ≡ p.job_id
  pub same_age : q.first_seen_at ≡ p.first_seen_at
  pub decided :
      ((q.state ≡ p.state)
        × (q.screen_score ≡ p.screen_score)
        × (q.screen_reason ≡ p.screen_reason))
      ⊎ ((p.state ≡ PostingState.new) × (q.state ≡ PostingState.screened))

-- Every row is kept, in its place, and what is added has no job.
pub data Evolved : List Posting → List Posting → Type 0 where
  added : (fresh : List Posting) → All (λ p. p.job_id ≡ none) fresh → Evolved [] fresh
  kept :
      {p q : Posting} {ps qs : List Posting} → Keeps p q → Evolved ps qs → Evolved (p ∷ ps) (q ∷ qs)

pub Keeps-refl : (p : Posting) → Keeps p p
Keeps-refl p = record {
  same_id = refl;
  same_company = refl;
  same_external_id = refl;
  same_job = refl;
  same_age = refl;
  decided = inl (refl, refl, refl);
}

pub Keeps-trans : {p q r : Posting} → Keeps p q → Keeps q r → Keeps p r
Keeps-trans {p} {q} {r} h k = record {
  same_id = k.same_id ∙ h.same_id;
  same_company = k.same_company ∙ h.same_company;
  same_external_id = k.same_external_id ∙ h.same_external_id;
  same_job = k.same_job ∙ h.same_job;
  same_age = k.same_age ∙ h.same_age;
  decided = both h.decided k.decided;
}
  where
    both :
        ((q.state ≡ p.state)
            × (q.screen_score ≡ p.screen_score)
            × (q.screen_reason ≡ p.screen_reason))
          ⊎ ((p.state ≡ PostingState.new) × (q.state ≡ PostingState.screened))
        → ((r.state ≡ q.state)
            × (r.screen_score ≡ q.screen_score)
            × (r.screen_reason ≡ q.screen_reason))
          ⊎ ((q.state ≡ PostingState.new) × (r.state ≡ PostingState.screened))
        → ((r.state ≡ p.state)
            × (r.screen_score ≡ p.screen_score)
            × (r.screen_reason ≡ p.screen_reason))
          ⊎ ((p.state ≡ PostingState.new) × (r.state ≡ PostingState.screened))
    both (inl a) (inl b) = inl (b.0 ∙ a.0, b.1 ∙ a.1, b.2 ∙ a.2)
    both (inl a) (inr b) = inr (sym a.0 ∙ b.0, b.1)
    both (inr a) (inl b) = inr (a.0, b.0 ∙ a.1)
    both (inr a) (inr b) = absurd (cc (a.1, b.0))

pub Evolved-refl : (ps : List Posting) → Evolved ps ps
Evolved-refl [] = added [] tt
Evolved-refl (p ∷ ps) = kept (Keeps-refl p) (Evolved-refl ps)

no_job_after :
    {qs rs : List Posting}
    → Evolved qs rs
    → All (λ p. p.job_id ≡ none) qs
    → All (λ p. p.job_id ≡ none) rs
no_job_after (added fresh h) a = h
no_job_after (kept k e) a = (k.same_job ∙ a.0, no_job_after e a.1)

pub Evolved-trans :
    (ps : List Posting) {qs rs : List Posting} → Evolved ps qs → Evolved qs rs → Evolved ps rs
Evolved-trans [] (added fresh h) e = added _ (no_job_after e h)
Evolved-trans (p ∷ ps) (kept k e) (kept k' e') = kept (Keeps-trans k k') (Evolved-trans ps e e')

pub Evolved-map :
    (f : Posting → Posting) (ps : List Posting)
    → ((p : Posting) → Keeps p (f p))
    → Evolved ps (map f ps)
Evolved-map f [] h = added [] tt
Evolved-map f (p ∷ ps) h = kept (h p) (Evolved-map f ps h)

pub Evolved-append :
    (ps fresh : List Posting) → All (λ p. p.job_id ≡ none) fresh → Evolved ps (ps ++ fresh)
Evolved-append [] fresh h = added fresh h
Evolved-append (p ∷ ps) fresh h = kept (Keeps-refl p) (Evolved-append ps fresh h)

abbrev pub find_row : ℕ → List Posting → Option Posting
find_row id = find? (λ p. p.id == id)

-- No id twice, and every id below the next one.
abbrev pub AllBelow : ℕ → List Posting → Type 0
AllBelow n = All (λ p. p.id < n)

abbrev pub distinct_ids : List Posting → Bool
distinct_ids [] = true
distinct_ids (p ∷ ps) = not (any (λ q. q.id == p.id) ps) && distinct_ids ps

-- The constraints of the table of postings.
pub record IsTable (db : Database) : Type 0 where
  pub unique : unique_keys db.postings ≡ true
  pub fits : all fits_columns db.postings ≡ true
  pub primary : distinct_ids db.postings ≡ true
  pub below : AllBelow db.next_id db.postings

-- each row is found under its id
abbrev pub Found : List Posting → List Posting → Type 0
Found rows = All (λ p. find_row p.id rows ≡ some p)

Found-cons :
    (q : Posting) (rows ps : List Posting)
    → any (λ p. p.id == q.id) ps ≡ false
    → Found rows ps
    → Found (q ∷ rows) ps
Found-cons q rows [] h f = tt
Found-cons q rows (p ∷ ps) h f = (ground (arith, f.0), Found-cons q rows ps (ground arith) f.1)

pub distinct_ids-Found : (ps : List Posting) → distinct_ids ps ≡ true → Found ps ps
distinct_ids-Found [] h = tt
distinct_ids-Found (p ∷ ps) h =
    (ground arith, Found-cons p ps ps (ground arith) (distinct_ids-Found ps (ground arith)))
