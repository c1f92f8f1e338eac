-- ===== src/Radar/Triage/Batches.antt =====
-- `_batches` of app/services/radar/triage.py.
use ai_career_os.Common.{
  ℕ, zero, suc, ◌*◌, ◌≤◌, ◌<◌, ◌≡◌, refl, ap, ◌∙◌, List, [], ◌∷◌, ◌++◌, arith, length,
  length-take-le, length-drop, take-append-drop, drop-nil, flatten-append, drop-drop, sym, take,
  drop, flatten, All,
}
use ai_career_os.Radar.Model.{RawPosting}
use ai_career_os.Radar.Triage.{triage_batch_size, batches_from, batches}

-- a slice as the loop makes it
pub record IsBatch (batch : List RawPosting) : Type 0 where
  pub nonempty : 0 < length batch
  pub bounded : length batch ≤ triage_batch_size

flatten-batches_from :
    (rounds : ℕ) (ps : List RawPosting) → length ps ≤ rounds → flatten (batches_from rounds ps) ≡ ps
unfolding batches_from
flatten-batches_from zero [] h = refl
flatten-batches_from zero (p ∷ ps) h = absurd (omega arith)
flatten-batches_from (suc r) [] h = refl
flatten-batches_from (suc r) (p ∷ ps) h =
    rw
      (flatten-batches_from r (drop triage_batch_size (p ∷ ps))
        (omega (arith, length-drop triage_batch_size (p ∷ ps))))
      (take-append-drop triage_batch_size (p ∷ ps))

batches_from-IsBatch : (rounds : ℕ) (ps : List RawPosting) → All IsBatch (batches_from rounds ps)
unfolding batches_from
batches_from-IsBatch zero ps = tt
batches_from-IsBatch (suc r) [] = tt
batches_from-IsBatch (suc r) (p ∷ ps) = (
  record {
    nonempty = unfold take in omega arith;
    bounded = length-take-le triage_batch_size (p ∷ ps);
  },
  batches_from-IsBatch r (drop triage_batch_size (p ∷ ps)),
)

-- The batches, one after the other, are the postings, and each has between one and 60 of them.
pub batches-partition :
    (ps : List RawPosting) → (flatten (batches ps) ≡ ps) × All IsBatch (batches ps)
unfolding batches
batches-partition ps =
    (flatten-batches_from (length ps) ps (omega arith), batches_from-IsBatch (length ps) ps)

drop-batches_from :
    (k rounds : ℕ) (ps : List RawPosting)
    → length ps ≤ rounds
    → flatten (drop k (batches_from rounds ps)) ≡ drop (k * triage_batch_size) ps
unfolding batches_from drop
drop-batches_from zero r ps h = flatten-batches_from r ps h
drop-batches_from (suc k) zero [] h = sym (drop-nil (suc k * triage_batch_size))
drop-batches_from (suc k) zero (p ∷ ps) h = absurd (omega arith)
drop-batches_from (suc k) (suc r) [] h = sym (drop-nil (suc k * triage_batch_size))
drop-batches_from (suc k) (suc r) (p ∷ ps) h =
    drop-batches_from k r (drop triage_batch_size (p ∷ ps))
      (omega (arith, length-drop triage_batch_size (p ∷ ps)))
    ∙ drop-drop (k * triage_batch_size) triage_batch_size (p ∷ ps)
    ∙ ap (λ n. drop n (p ∷ ps)) (omega arith)

-- What lies beyond the first `k` batches is what lies beyond the first 60 `k` postings.
pub drop-batches :
    (k : ℕ) (ps : List RawPosting) → flatten (drop k (batches ps)) ≡ drop (k * triage_batch_size) ps
unfolding batches
drop-batches k ps = drop-batches_from k (length ps) ps (omega arith)

-- The first `k` batches and the rest of the postings make up the board.
pub split_batches :
    (k : ℕ) (ps : List RawPosting)
    → flatten (take k (batches ps)) ++ drop (k * triage_batch_size) ps ≡ ps
split_batches k ps =
    ap (λ rest. flatten (take k (batches ps)) ++ rest) (sym (drop-batches k ps))
    ∙ sym (flatten-append (take k (batches ps)) (drop k (batches ps)))
    ∙ ap flatten (take-append-drop k (batches ps))
    ∙ (batches-partition ps).0
