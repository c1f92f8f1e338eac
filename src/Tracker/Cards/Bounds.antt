-- ===== src/Tracker/Cards/Bounds.antt =====
-- The bounds of a screening card: app/services/screening_card.py.
use Prim.Native.Char.{code}
use Prim.Native.String.append
use Prim.Native.String.{◌++◌ as ◌+++◌}
use ai_career_os.Common.{
  ℕ, zero, suc, ◌+◌, ◌≤◌, String, ◌≡◌, refl, sym, ap, subst, ◌∙◌, true, ◌&&◌, none, length,
  length-take-le, leb, leb→le, str_eq, arith, Bool-cases, inl, inr, if_true,
}
use ai_career_os.Common.Text.{str_len, strip, rstrip, slice_to, is_space}
use ai_career_os.Json.{Value, get, or_empty}
use ai_career_os.Tracker.Model.{JobRow}
use ai_career_os.Tracker.Results.{valid}
use ai_career_os.Tracker.Cards.{
  shortened, fallback_summary, ScreeningCard, validate_card, top_requirements, or_else,
  build_screening_card, blank_or_text,
}

str_len-append : (a b : String) → str_len (a +++ b) ≡ str_len a + str_len b
unfolding str_len
str_len-append String.[] b = ap str_len (λ i. append.nil b i) ∙ omega arith
str_len-append (String.◌∷◌ c a) b =
    ap str_len (λ i. append.cons c a b i) ∙ omega (arith, str_len-append a b)

str_len-slice_to : (n : ℕ) (s : String) → str_len (slice_to n s) ≤ n
unfolding str_len slice_to
str_len-slice_to zero s = omega arith
str_len-slice_to (suc n) String.[] = omega arith
str_len-slice_to (suc n) (String.◌∷◌ c s) = omega (arith, str_len-slice_to n s)

str_len-rstrip : (s : String) → str_len (rstrip s) ≤ str_len s
unfolding str_len rstrip
str_len-rstrip String.[] = omega arith
str_len-rstrip (String.◌∷◌ c s) = elim (Bool-cases (str_eq (rstrip s) "" && is_space (code c))) [
  | inl blank ↦ rw blank (omega arith)
  | inr kept ↦ rw kept (omega (arith, str_len-rstrip s))
]

leb-true : (a b : ℕ) → a ≤ b → leb a b ≡ true
leb-true a b h = ground (arith, h)

str_len-shortened :
    (s : String) → 1 ≤ str_len s → (1 ≤ str_len (shortened s)) × (str_len (shortened s) ≤ 200)
unfolding shortened str_len
str_len-shortened s h = elim (Bool-cases (leb (str_len s) 200)) [
  | inl short ↦ rw short (h, leb→le _ _ short)
  | inr long ↦ rw long (
      rw (str_len-append (rstrip (slice_to 199 s)) "…")
        (omega arith, omega (arith, str_len-rstrip (slice_to 199 s), str_len-slice_to 199 s)))
]

module _ {F : Type 0} (str_other : Value F → String) where
  -- the tests of the schema
  abbrev pub InBounds : ScreeningCard → Type 0
  InBounds card =
      (length card.top_requirements ≤ 5) × (1 ≤ str_len card.summary) × (str_len card.summary ≤ 500)

  -- A job with a description that is not blank, and with no summary of its own, has a card within
  -- the bounds of the schema, with the id of the job, whatever its metadata.
  pub build_screening_card-valid :
      (job : JobRow F)
      → blank_or_text str_other (get "match_summary" (or_empty job.raw_metadata)) ≡ none
      → 1 ≤ str_len (strip job.description)
      → (card : ScreeningCard) × (build_screening_card str_other job ≡ valid card)
        × (card.job_id ≡ job.id)
        × InBounds card
  unfolding build_screening_card validate_card fallback_summary top_requirements
  build_screening_card-valid job no_summary full = (
    card,
    if_true _ _ (
        ap (λ b. b && leb (str_len card.summary) 500) (leb-true 1 _ low)
        ∙ leb-true (str_len card.summary) 500 high),
    refl,
    (length-take-le 5 _, low, high),
  )
    where
      card : ScreeningCard
      card = record {
        job_id = job.id;
        title = job.title;
        company = job.company;
        location = job.location;
        top_requirements = top_requirements str_other (or_empty job.raw_metadata);
        summary =
            or_else str_other (fallback_summary job.description)
              (blank_or_text str_other (get "match_summary" (or_empty job.raw_metadata)));
      }

      bounds :
          (1 ≤ str_len (shortened (strip job.description)))
          × (str_len (shortened (strip job.description)) ≤ 200)
      bounds = str_len-shortened (strip job.description) full

      summary_of : card.summary ≡ fallback_summary job.description
      summary_of = ap (or_else str_other (fallback_summary job.description)) no_summary

      low : 1 ≤ str_len card.summary
      low = subst (λ s. 1 ≤ str_len s) (sym summary_of) bounds.0

      high : str_len card.summary ≤ 500
      high = subst (λ s. str_len s ≤ 500) (sym summary_of) (omega (arith, bounds.1))
