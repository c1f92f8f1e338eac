-- ===== src/Ats/Readable.antt =====
-- What the sources of app/services/radar/sources give.
use ai_career_os.Common.{
  String, ◌≡◌, refl, ap, ◌∙◌, Bool, true, false, ◌||◌, Option, none, some, List, ◌==◌, leb, str_eq,
  if◌then◌else◌, All, Bool-cases, inl, inr, ◌⊎◌, or_false,
}
use ai_career_os.Common.Exec.{Result, ok, err}
use ai_career_os.Json.{Value, Items, nil, cons, null, boolean, number, text, array, object, get}
use ai_career_os.Radar.Model.{RawPosting}
use ai_career_os.Ats.{
  described, collected, HttpAnswer, http_error, raised, response, AtsEnv, is_ats_error, json_of,
  received_json, fetch_json, probed, text_under, postings_of, jobs_of, fetched_object, fetched_list,
}
use ai_career_os.Ats.Greenhouse.{
  greenhouse, greenhouse_posting, greenhouse_description, greenhouse_filled, has_jobs,
}
use ai_career_os.Ats.Lever.{lever, lever_posting, full_description, lever_filled, is_list}
use ai_career_os.Ats.Ashby.{ashby, ashby_posting, ashby_description, ashby_filled, lists_jobs}
use ai_career_os.Ats.Resolver.{all_sources}
use ai_career_os.Ats.Descriptions.{
  FromHtml, Traced, unescaped-Traced, full_description-Traced, ashby_description-Traced,
}

-- a role with an id, a title and a description
abbrev pub IsReadable : RawPosting → Type 0
IsReadable p =
    (str_eq p.external_id "" ≡ false)
    × (str_eq p.title "" ≡ false)
    × (str_eq p.description "" ≡ false)

-- readable roles, or an error of the board, or one that reading the HTML of a role raises
abbrev pub Fetched : {F : Type 0} → AtsEnv F → Result (List RawPosting) → Type 0
Fetched env (ok postings) = All IsReadable postings
Fetched env (err e) = (is_ats_error e ≡ true) ⊎ FromHtml env e

abbrev pub Probed : Result Bool → Type 0
Probed (ok found) = Unit
Probed (err e) = ⊥

-- a request that gives a response or fails as HTTP does
abbrev pub is_raised : {F : Type 0} → HttpAnswer F → Bool
is_raised (raised e) = true
is_raised _ = false

module _ {F : Type 0} (env : AtsEnv F) where
  abbrev MaybeReadable : Result (Option RawPosting) → Type 0
  MaybeReadable (ok none) = Unit
  MaybeReadable (ok (some p)) = IsReadable p
  MaybeReadable (err e) = FromHtml env e

  -- a job without an id, a title or a description is left out
  guarded :
      (external_id title : String) (description : Result String) (posting : String → RawPosting)
      → ((d : String) → (posting d).external_id ≡ external_id)
      → ((d : String) → (posting d).title ≡ title)
      → ((d : String) → (posting d).description ≡ d)
      → Traced env description
      → MaybeReadable (
          if str_eq external_id "" || str_eq title ""
          then ok none
          else described env posting description)
  guarded external_id title description posting i t d traced =
      elim (Bool-cases (str_eq external_id "" || str_eq title "")) [
        | inl blank ↦ rw blank tt
        | inr full ↦ rw full (filled description traced full)
      ]
    where
      filled :
          (description : Result String)
          → Traced env description
          → (str_eq external_id "" || str_eq title "") ≡ false
          → MaybeReadable (described env posting description)
      filled (err e) traced full = traced
      filled (ok written) traced full = elim (Bool-cases (str_eq written "")) [
        | inl empty ↦ rw empty tt
        | inr nonempty ↦
            let (has_id, has_title) = or_false (str_eq external_id "") (str_eq title "") full in
            rw nonempty (
              ap (λ s. str_eq s "") (i written) ∙ has_id,
              ap (λ s. str_eq s "") (t written) ∙ has_title,
              ap (λ s. str_eq s "") (d written) ∙ nonempty,
            )
      ]

  postings_of-Fetched :
      (to_posting : Value F → Result (Option RawPosting))
      → ((job : Value F) → MaybeReadable (to_posting job))
      → (jobs : Items F) → Fetched env (postings_of env to_posting jobs)
  unfolding postings_of
  postings_of-Fetched to_posting h nil = tt
  postings_of-Fetched to_posting h (cons job jobs) =
      added (to_posting job) (h job) (postings_of env to_posting jobs)
        (postings_of-Fetched to_posting h jobs)
    where
      added :
          (p : Result (Option RawPosting))
          → MaybeReadable p
          → (rest : Result (List RawPosting)) → Fetched env rest
          → Fetched env (collected env p rest)
      added (err e) k rest later = inr k
      added (ok none) k rest later = later
      added (ok (some p)) k (err e) later = later
      added (ok (some p)) k (ok ps) later = (k, later)

  -- an answer, or an error of the board
  abbrev Answered : Result (Value F) → Type 0
  Answered (ok payload) = Unit
  Answered (err e) = is_ats_error e ≡ true

  fetch_json-Answered :
      ((link : String) → is_raised (env.http_get link) ≡ false)
      → (provider link : String) → Answered (fetch_json env provider link)
  unfolding fetch_json
  fetch_json-Answered http provider link = received (env.http_get link) (http link)
    where
      parsed : (payload : Option (Value F)) → Answered (json_of env provider payload)
      parsed none = refl
      parsed (some payload) = tt

      received :
          (answer : HttpAnswer F)
          → is_raised answer ≡ false
          → Answered (received_json env provider answer)
      received (http_error m) h = refl
      received (raised e) h = absurd cc
      received (response status payload) h = elim (Bool-cases (status == 404)) [
        | inl missing ↦ rw missing refl
        | inr there ↦ elim (Bool-cases (leb 400 status)) [
          | inl refused ↦ rw (there, refused) refl
          | inr fine ↦ rw (there, fine) (parsed payload)
        ]
      ]

  probed-Probed :
      (test : Value F → Bool) (answer : Result (Value F))
      → Answered answer
      → Probed (probed env test answer)
  probed-Probed test (ok payload) h = tt
  probed-Probed test (err e) h = rw h tt

  jobs_of-Fetched :
      (to_posting : Value F → Result (Option RawPosting))
      → ((job : Value F) → MaybeReadable (to_posting job))
      → (jobs : Option (Value F)) → Fetched env (jobs_of env to_posting jobs)
  jobs_of-Fetched to_posting h (some (array jobs)) = postings_of-Fetched to_posting h jobs
  jobs_of-Fetched to_posting h (some null) = tt
  jobs_of-Fetched to_posting h (some (boolean b)) = tt
  jobs_of-Fetched to_posting h (some (number n)) = tt
  jobs_of-Fetched to_posting h (some (text s)) = tt
  jobs_of-Fetched to_posting h (some (object fs)) = tt
  jobs_of-Fetched to_posting h none = tt

  fetched_object-Fetched :
      (label : String) (to_posting : Value F → Result (Option RawPosting))
      (answer : Result (Value F))
      → ((job : Value F) → MaybeReadable (to_posting job))
      → Answered answer
      → Fetched env (fetched_object env label to_posting answer)
  fetched_object-Fetched label to_posting (ok (object payload)) h k =
      jobs_of-Fetched to_posting h (get "jobs" payload)
  fetched_object-Fetched label to_posting (ok null) h k = inl refl
  fetched_object-Fetched label to_posting (ok (boolean b)) h k = inl refl
  fetched_object-Fetched label to_posting (ok (number n)) h k = inl refl
  fetched_object-Fetched label to_posting (ok (text s)) h k = inl refl
  fetched_object-Fetched label to_posting (ok (array vs)) h k = inl refl
  fetched_object-Fetched label to_posting (err e) h k = inl k

  fetched_list-Fetched :
      (label : String) (to_posting : Value F → Result (Option RawPosting))
      (answer : Result (Value F))
      → ((job : Value F) → MaybeReadable (to_posting job))
      → Answered answer
      → Fetched env (fetched_list env label to_posting answer)
  fetched_list-Fetched label to_posting (ok (array jobs)) h k =
      postings_of-Fetched to_posting h jobs
  fetched_list-Fetched label to_posting (ok null) h k = inl refl
  fetched_list-Fetched label to_posting (ok (boolean b)) h k = inl refl
  fetched_list-Fetched label to_posting (ok (number n)) h k = inl refl
  fetched_list-Fetched label to_posting (ok (text s)) h k = inl refl
  fetched_list-Fetched label to_posting (ok (object fs)) h k = inl refl
  fetched_list-Fetched label to_posting (err e) h k = inl k

  greenhouse_posting-MaybeReadable : (job : Value F) → MaybeReadable (greenhouse_posting env job)
  unfolding greenhouse_posting
  greenhouse_posting-MaybeReadable (object job) =
      guarded (text_under env "id" job) (text_under env "title" job)
        (greenhouse_description env job)
        (greenhouse_filled env job (text_under env "id" job) (text_under env "title" job))
        (λ d. refl) (λ d. refl) (λ d. refl) (unescaped-Traced env _ _ refl)
  greenhouse_posting-MaybeReadable null = tt
  greenhouse_posting-MaybeReadable (boolean b) = tt
  greenhouse_posting-MaybeReadable (number n) = tt
  greenhouse_posting-MaybeReadable (text s) = tt
  greenhouse_posting-MaybeReadable (array vs) = tt

  lever_posting-MaybeReadable : (job : Value F) → MaybeReadable (lever_posting env job)
  unfolding lever_posting
  lever_posting-MaybeReadable (object job) =
      guarded (text_under env "id" job) (text_under env "text" job) (full_description env job)
        (lever_filled env job (text_under env "id" job) (text_under env "text" job)) (λ d. refl)
        (λ d. refl) (λ d. refl) (full_description-Traced env job)
  lever_posting-MaybeReadable null = tt
  lever_posting-MaybeReadable (boolean b) = tt
  lever_posting-MaybeReadable (number n) = tt
  lever_posting-MaybeReadable (text s) = tt
  lever_posting-MaybeReadable (array vs) = tt

  ashby_posting-MaybeReadable : (job : Value F) → MaybeReadable (ashby_posting env job)
  unfolding ashby_posting
  ashby_posting-MaybeReadable (object job) =
      guarded (text_under env "id" job) (text_under env "title" job)
        (ashby_description env job (get "descriptionPlain" job))
        (ashby_filled env job (text_under env "id" job) (text_under env "title" job)) (λ d. refl)
        (λ d. refl) (λ d. refl) (ashby_description-Traced env job (get "descriptionPlain" job))
  ashby_posting-MaybeReadable null = tt
  ashby_posting-MaybeReadable (boolean b) = tt
  ashby_posting-MaybeReadable (number n) = tt
  ashby_posting-MaybeReadable (text s) = tt
  ashby_posting-MaybeReadable (array vs) = tt

  -- Where each request gives a response or fails as HTTP does, every source fetches roles with an
  -- id, a title and a description, or raises an error of the board or what reading HTML raises, and
  -- its probe returns.
  pub all_sources-Fetched :
      (token : String)
      → ((link : String) → is_raised (env.http_get link) ≡ false)
      → All
          (λ source. Fetched env (source.fetch token) × Probed (source.probe token))
          (all_sources env)
  unfolding greenhouse lever ashby
  all_sources-Fetched token http = (
    (
      fetched_object-Fetched "Greenhouse" (greenhouse_posting env) _
          greenhouse_posting-MaybeReadable (fetch_json-Answered http _ _),
      probed-Probed (has_jobs env) _ (fetch_json-Answered http _ _),
    ),
    (
      (
        fetched_list-Fetched "Lever" (lever_posting env) _ lever_posting-MaybeReadable
            (fetch_json-Answered http _ _),
        probed-Probed (is_list env) _ (fetch_json-Answered http _ _),
      ),
      (
        (
          fetched_object-Fetched "Ashby" (ashby_posting env) _ ashby_posting-MaybeReadable
              (fetch_json-Answered http _ _),
          probed-Probed (lists_jobs env) _ (fetch_json-Answered http _ _),
        ),
        tt,
      ),
    ),
  )
