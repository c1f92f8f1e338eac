-- ===== src/Radar/Triage/Select.antt =====
-- `_triage_batch` of app/services/radar/triage.py: the indices of an answer.
use ai_career_os.Common.{
  ℕ, zero, suc, ◌+◌, ◌≤◌, ◌<◌, ◌≡◌, Bool, false, some, List, [], ◌∷◌, arith, if◌then◌else◌,
  Option-cases, inl, inr, length, get_elem?, member, bit, count_if, Within,
}
use ai_career_os.Radar.Model.{RawPosting}
use ai_career_os.Radar.Triage.{ℤ, pos, negsuc, pred_ℤ, accepted, keep_relevant}

module _ (p : RawPosting → Bool) where
  -- how many of the postings at positions from `k` on, outside `seen`, pass the test
  untaken : List ℕ → ℕ → List RawPosting → ℕ
  untaken seen k [] = 0
  untaken seen k (x ∷ xs) = (if member k seen then 0 else bit (p x)) + untaken seen (k + 1) xs

  untaken-nil : (k : ℕ) (xs : List RawPosting) → untaken [] k xs ≡ count_if p xs
  unfolding untaken
  untaken-nil k [] = omega arith
  untaken-nil k (x ∷ xs) = omega (arith, untaken-nil (k + 1) xs)

  -- a position that was passed does not matter
  untaken_passed :
      (seen : List ℕ) (i k : ℕ) (xs : List RawPosting)
      → i < k
      → untaken (i ∷ seen) k xs ≡ untaken seen k xs
  unfolding untaken
  untaken_passed seen i k [] h = omega arith
  untaken_passed seen i k (x ∷ xs) h = ground (arith, untaken_passed seen i (k + 1) xs)

  untaken_grows :
      (seen : List ℕ) (i k : ℕ) (xs : List RawPosting) → untaken (i ∷ seen) k xs ≤ untaken seen k xs
  unfolding untaken
  untaken_grows seen i k [] = omega arith
  untaken_grows seen i k (x ∷ xs) = ground (arith, untaken_grows seen i (k + 1) xs)

  untaken_taken :
      (seen : List ℕ) (k j i : ℕ) (xs : List RawPosting) (x : RawPosting)
      → i ≡ k + j
      → get_elem? xs j ≡ some x
      → member i seen ≡ false
      → untaken (i ∷ seen) k xs + bit (p x) ≡ untaken seen k xs
  unfolding untaken
  untaken_taken seen k j i [] x e h m = cc
  untaken_taken seen k zero i (y ∷ ys) x e h m = ground (arith, untaken_passed seen i (k + 1) ys)
  untaken_taken seen k (suc j) i (y ∷ ys) x e h m =
      ground (arith, untaken_taken seen (k + 1) j i ys x)

  accepted_fresh :
      (size : ℕ) (seen : List ℕ) (raw : ℤ) (index : ℕ)
      → accepted size seen raw ≡ some index
      → (index < size) × (member index seen ≡ false)
  unfolding accepted
  accepted_fresh size seen (negsuc n) index h = cc
  accepted_fresh size seen (pos n) index h = ground arith

  keep_relevant-le-untaken :
      (batch : List RawPosting) (seen : List ℕ) (raws : List ℤ)
      → count_if p (keep_relevant batch seen raws) ≤ untaken seen 0 batch
  unfolding keep_relevant
  keep_relevant-le-untaken batch seen [] = omega arith
  keep_relevant-le-untaken batch seen (raw ∷ raws) =
      elim (Option-cases (accepted (length batch) seen (pred_ℤ raw))) [
        | inl skipped ↦ ground (arith, keep_relevant-le-untaken batch seen raws)
        | inr (index, e) ↦ elim (Option-cases (get_elem? batch index)) [
          | inl out ↦ ground (
            arith,
            keep_relevant-le-untaken batch (index ∷ seen) raws,
            untaken_grows seen index 0 batch,
          )
          | inr (x, at_index) ↦ ground (
            arith,
            keep_relevant-le-untaken batch (index ∷ seen) raws,
            untaken_taken seen 0 index index batch x,
            accepted_fresh (length batch) seen (pred_ℤ raw) index e,
          )
        ]
      ]

-- Whatever the model answers, what is kept of a batch holds only postings of the batch, none of
-- them more often than the batch does.
pub keep_relevant-Within :
    (batch : List RawPosting) (raws : List ℤ) → Within (keep_relevant batch [] raws) batch
keep_relevant-Within batch raws p =
    omega (arith, keep_relevant-le-untaken p batch [] raws, untaken-nil p 0 batch)
