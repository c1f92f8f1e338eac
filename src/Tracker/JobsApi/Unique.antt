-- ===== src/Tracker/JobsApi/Unique.antt =====
-- The URLs of the jobs that app/api/jobs.py creates.
use ai_career_os.Common.{
  ℕ, String, ◌≡◌, refl, sym, ap, subst, ◌∙◌, Bool, true, false, ◌&&◌, Option, none, some, List, [],
  ◌∷◌, str_eq, any, eq_iff, Bool-cases, inl, inr, if_true, if_false, no_two, no_two-last, or_false,
}
use ai_career_os.Common.Text.{truthy, or_blank}
use ai_career_os.Common.Exec.{Result, Post}
use ai_career_os.Json.{Fields}
use ai_career_os.Tracker.Model.{ProfileRow, JobRow, Session}
use ai_career_os.Tracker.Results.{Validated, valid, invalid}
use ai_career_os.Tracker.JobsApi.{
  JobCreate, JobsEnv, has_url, job_with, created_job, with_metadata, add_pending, insert_job,
  job_by_normal, created, create_new, create_job,
}

module _ {F : Type 0} where
  -- two jobs with the same URL, which is not empty
  abbrev pub same_url : JobRow F → JobRow F → Bool
  same_url a b = truthy a.url && has_url (or_blank a.url) b.url

  abbrev pub urls_apart : List (JobRow F) → Bool
  urls_apart = no_two same_url

str_eq-differs : (a b : String) → str_eq a b ≡ false → str_eq b a ≡ false
str_eq-differs a b h = elim (Bool-cases (str_eq b a)) [
  | inl e ↦ let same : str_eq a b ≡ true = (eq_iff a b).1 (sym ((eq_iff b a).0 e)) in absurd cc
  | inr e ↦ e
]

-- an old URL is not the new one, if that is not empty and was not found
apart_one :
    (old new : Option String)
    → (truthy new ≡ true → has_url (or_blank new) old ≡ false)
    → (truthy old && has_url (or_blank old) new) ≡ false
apart_one none new h = refl
apart_one (some u) none h = elim (Bool-cases (truthy (some u))) [
  | inl e ↦ rw e refl
  | inr e ↦ rw e refl
]
apart_one (some u) (some v) h = elim (Bool-cases (truthy (some u))) [
  | inl full ↦ rw full (elim (Bool-cases (str_eq v u)) [
    | inl same ↦
        str_eq-differs u v
          (h (subst (λ s. truthy (some s) ≡ true) (sym ((eq_iff v u).0 same)) full))
    | inr differs ↦ differs
  ])
  | inr blank ↦ rw blank refl
]

module _ {F : Type 0} where
  job_with-none :
      (url : String) (jobs : List (JobRow F))
      → job_with url jobs ≡ none
      → any (λ job. has_url url job.url) jobs ≡ false
  job_with-none url [] h = refl
  job_with-none url (job ∷ jobs) h = elim (Bool-cases (has_url url job.url)) [
    | inl found ↦ let bad : some job ≡ none = sym (if_true _ _ found) ∙ h in absurd cc
    | inr other ↦ rw other (job_with-none url jobs (sym (if_false _ _ other) ∙ h))
  ]

  none_same :
      (new : JobRow F) (jobs : List (JobRow F))
      → (truthy new.url ≡ true → any (λ job. has_url (or_blank new.url) job.url) jobs ≡ false)
      → any (λ job. same_url job new) jobs ≡ false
  none_same new [] h = refl
  none_same new (job ∷ jobs) h =
      rw (apart_one job.url new.url (λ full. (or_false _ _ (h full)).0))
        (none_same new jobs (λ full. (or_false _ _ (h full)).1))

  -- the session after a job was created, or was not
  abbrev pub CreatedOrNot : Session F → Result (JobRow F × Option ℕ) × Session F → Type 0
  CreatedOrNot s =
      Post (λ _ s'. (s'.saved ≡ s'.rows) × (urls_apart s'.rows.jobs ≡ true))
        (λ s'. s'.saved ≡ s.saved)

  add_pending-CreatedOrNot :
      (job : JobRow F) (profile_id : Option ℕ) (profile : Option (ProfileRow F)) (s t : Session F)
      → urls_apart t.rows.jobs ≡ true
      → t.saved ≡ s.saved
      → CreatedOrNot s (add_pending job profile_id profile t)
  unfolding add_pending
  add_pending-CreatedOrNot job none profile s t h k = (refl, h)
  add_pending-CreatedOrNot job (some id) none s t h k = k
  add_pending-CreatedOrNot job (some id) (some profile) s t h k = (refl, h)

  insert_job-CreatedOrNot :
      (body : JobCreate F) (job : JobRow F) (answer : Validated (Fields F)) (s : Session F)
      → urls_apart s.rows.jobs ≡ true
      → (truthy job.url ≡ true
          → any (λ row. has_url (or_blank job.url) row.url) s.rows.jobs ≡ false)
      → CreatedOrNot s (insert_job body job answer s)
  unfolding insert_job
  insert_job-CreatedOrNot body job (invalid m) s h k = refl
  insert_job-CreatedOrNot body job (valid metadata) s h k =
      add_pending-CreatedOrNot _ _ _ s _
        (no_two-last same_url s.rows.jobs (with_metadata metadata job) h
          (none_same (with_metadata metadata job) s.rows.jobs k))
        refl

module _ {F : Type 0} (env : JobsEnv F) where
  open env use {normalize_job_url}

  created-CreatedOrNot :
      (body : JobCreate F) (url : Option String) (s : Session F)
      → urls_apart s.rows.jobs ≡ true
      → (truthy url ≡ true → any (λ row. has_url (or_blank url) row.url) s.rows.jobs ≡ false)
      → CreatedOrNot s (created env body url s)
  created-CreatedOrNot body url s h k =
      insert_job-CreatedOrNot body (created_job s.rows.next_id body url) _ s h k

  create_new-CreatedOrNot :
      (body : JobCreate F) (url : Option String) (s : Session F)
      → urls_apart s.rows.jobs ≡ true
      → (found : Option (JobRow F)) → job_by_normal env url s ≡ found
      → CreatedOrNot s (create_new env body url found s)
  unfolding create_new
  create_new-CreatedOrNot body url s h (some job) e = refl
  create_new-CreatedOrNot body url s h none e =
      created-CreatedOrNot body url s h
        (λ full. job_with-none (or_blank url) s.rows.jobs (sym (if_true _ _ full) ∙ e))

  -- Where the normal form of the URL is its own normal form, a job that is created is saved, and no
  -- two jobs have the same URL that is not empty, if they had not before. A refusal saves nothing.
  pub create_job-urls_apart :
      (body : JobCreate F) (s : Session F)
      → normalize_job_url (normalize_job_url body.url) ≡ normalize_job_url body.url
      → urls_apart s.rows.jobs ≡ true
      → Post
          (λ _ s'. (s'.saved ≡ s'.rows) × (urls_apart s'.rows.jobs ≡ true))
          (λ s'. s'.saved ≡ s.saved)
          (create_job env body s)
  unfolding create_job
  create_job-urls_apart body s stable h = elim (Bool-cases (truthy body.url)) [
    | inl full ↦ subst (CreatedOrNot s) (sym (if_true _ _ full)) (
        create_new-CreatedOrNot body (normalize_job_url body.url) s h _
          (ap (λ url. job_by_normal env url s) (sym stable)))
    | inr blank ↦
        subst (CreatedOrNot s) (sym (if_false _ _ blank))
          (created-CreatedOrNot body body.url s h (λ full. absurd (clash_of full blank)))
  ]
    where
      clash_of : {b : Bool} → b ≡ true → b ≡ false → ⊥
      clash_of e f = cc
