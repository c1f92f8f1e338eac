-- ===== src/Tracker/Results.antt =====
-- Results of a match analysis and the JSON they are stored as: app/schemas/match_analysis.py and
-- app/services/match/result.py.
use ai_career_os.Common.{
  String, false, Option, none, some, List, [], ◌∷◌, if◌then◌else◌, is_empty, ◌≡◌, refl, ap, ◌∙◌,
  if_false,
}
use ai_career_os.Common.Exec.{Exception, Result, ok, err}
use ai_career_os.Json.{
  Value, Items, Fields, nil, cons, end, field, number, text, array, object, get, set, update,
  is_text,
}

pub data Recommendation : Type 0 where
  apply maybe_apply do_not_apply : Recommendation

abbrev pub recommendation_text : Recommendation → String
recommendation_text apply = "apply"
recommendation_text maybe_apply = "maybe apply"
recommendation_text do_not_apply = "do not apply"

pub data Severity : Type 0 where
  low medium high : Severity

abbrev pub severity_text : Severity → String
severity_text low = "low"
severity_text medium = "medium"
severity_text high = "high"

pub record MatchStrength (F : Type 0) : Type 0 where
  pub point : F
  pub evidence : String

pub record MatchGap (F : Type 0) : Type 0 where
  pub point : F
  pub severity : Severity
  pub evidence : String

pub record MatchResult (F : Type 0) : Type 0 where
  pub score : F
  pub recommendation : Recommendation
  pub strengths : List (MatchStrength F)
  pub gaps : List (MatchGap F)
  pub summary : String

-- a chunk of app/schemas/rag.py with its score
pub record ScoredChunk (F : Type 0) : Type 0 where
  pub id : String
  pub text : String
  pub section : String
  pub company : Option String
  pub title : Option String
  pub score : F

-- `MatchResult.model_fields`
abbrev pub model_fields : List String
model_fields = "score" ∷ "recommendation" ∷ "strengths" ∷ "gaps" ∷ "summary" ∷ []

module _ {F : Type 0} where
  abbrev pub array_of {ℓ} : {A : Type ℓ} → (A → Value F) → List A → Items F
  array_of f [] = nil
  array_of f (x ∷ xs) = cons (f x) (array_of f xs)

  abbrev pub strength_json : MatchStrength F → Value F
  strength_json s = object (field "point" (number s.point) (field "evidence" (text s.evidence) end))

  abbrev pub gap_json : MatchGap F → Value F
  gap_json g = object (
      field "point" (number g.point) (
        field "severity" (text (severity_text g.severity))
          (field "evidence" (text g.evidence) end)))

  -- `result.model_dump()`
  unfoldable pub model_dump : MatchResult F → Fields F
  model_dump r = field "score" (number r.score) (
      field "recommendation" (text (recommendation_text r.recommendation)) (
        field "strengths" (array (array_of strength_json r.strengths))
          (field "gaps" (array (array_of gap_json r.gaps)) (field "summary" (text r.summary) end))))

  -- `round_4` is `round(x, 4)`
  abbrev pub chunk_json : (F → F) → ScoredChunk F → Value F
  chunk_json round_4 c = object (
      field "id" (text c.id) (
        field "score" (number (round_4 c.score))
          (field "text" (text c.text) (field "section" (text c.section) end))))

  unfoldable pub full_result_payload : (F → F) → MatchResult F → List (ScoredChunk F) → Fields F
  unfolding model_dump update
  full_result_payload round_4 result rag_chunks =
      let payload = update (field "depth" (text "full") end) (model_dump result) in
      if is_empty rag_chunks
      then payload
      else set "retrieved_chunks" (array (array_of (chunk_json round_4) rag_chunks)) payload

  abbrev pub keep_found : String → Option (Value F) → Fields F → Fields F
  keep_found key none rest = rest
  keep_found key (some v) rest = field key v rest

  -- `{key: result[key] for key in keys if key in result}`
  unfoldable pub picked : List String → Fields F → Fields F
  unfolding get
  picked [] result = end
  picked (key ∷ keys) result = keep_found key (get key result) (picked keys result)

-- The answer of pydantic's `model_validate`: the model, or a `ValidationError` with its message.
pub data Validated (A : Type 0) : Type 0 where
  valid : A → Validated A
  invalid : String → Validated A

-- `MatchResult.model_validate` is a parameter.
module _ {F : Type 0} (validate : Fields F → Validated (MatchResult F)) where
  unfoldable pub match_result_from_analysis_payload : Fields F → Validated (MatchResult F)
  unfolding picked
  match_result_from_analysis_payload result = validate (picked model_fields result)

  -- A `ValidationError` is a `ValueError`.
  abbrev pub or_value_error : Validated (MatchResult F) → Result (MatchResult F)
  or_value_error (valid r) = ok r
  or_value_error (invalid m) = err (Exception.value_error m)

  unfoldable pub match_result_for_cover_letter : Fields F → Result (MatchResult F)
  unfolding match_result_from_analysis_payload
  match_result_for_cover_letter result =
      if is_text "screen" (get "depth" result)
      then err (Exception.value_error "Full match analysis required for cover letter generation")
      else or_value_error (match_result_from_analysis_payload result)

  pub picked-full_result_payload :
      (round_4 : F → F) (r : MatchResult F) (chunks : List (ScoredChunk F))
      → picked model_fields (full_result_payload round_4 r chunks) ≡ model_dump r
  unfolding picked full_result_payload set get
  picked-full_result_payload round_4 r [] = refl
  picked-full_result_payload round_4 r (c ∷ cs) = refl

  full_depth :
      (round_4 : F → F) (r : MatchResult F) (chunks : List (ScoredChunk F))
      → is_text "screen" (get "depth" (full_result_payload round_4 r chunks)) ≡ false
  unfolding full_result_payload set get
  full_depth round_4 r [] = refl
  full_depth round_4 r (c ∷ cs) = refl

  -- Where `model_validate` gives a result back from its dump, the stored payload of a full analysis
  -- is read back as that result, whatever chunks are stored with it, and a cover letter can be
  -- written from it.
  pub match_result_for_cover_letter-full_result_payload :
      (round_4 : F → F) (r : MatchResult F) (chunks : List (ScoredChunk F))
      → validate (model_dump r) ≡ valid r
      → (match_result_from_analysis_payload (full_result_payload round_4 r chunks) ≡ valid r)
        × (match_result_for_cover_letter (full_result_payload round_4 r chunks) ≡ ok r)
  unfolding match_result_for_cover_letter
  match_result_for_cover_letter-full_result_payload round_4 r chunks h =
      (read, if_false _ _ (full_depth round_4 r chunks) ∙ ap or_value_error read)
    where
      read : match_result_from_analysis_payload (full_result_payload round_4 r chunks) ≡ valid r
      read = ap validate (picked-full_result_payload round_4 r chunks) ∙ h
