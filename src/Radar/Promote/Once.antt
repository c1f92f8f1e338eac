-- ===== src/Radar/Promote/Once.antt =====
-- `promote_posting` of app/services/radar/promote.py, the first and the second time.
use ai_career_os.Common.{
  ℕ, ◌+◌, ◌≡◌, refl, ap, sym, ◌∙◌, true, false, Option, none, some, List, [], ◌∷◌, ◌++◌, map, ◌==◌,
  Bool-cases, inl, inr, if_true, if_false, all, ◌&&◌,
}
use mathlib.Core.Path.{ap₂}
use ai_career_os.Common.Exec.{already_promoted, Result, ok, err, ◌>>◌, >>=-ok, modify, pure, raise}
use ai_career_os.Radar.Model.{Posting, Profile, Job}
use ai_career_os.Radar.Database.{
  Database, Session, IsReady, find_company, change, flush, commit, commit-ready, fits_columns,
  flush-ready,
}
use ai_career_os.Radar.Postings.Keys.{key, unique_keys-same}
use ai_career_os.Radar.Postings.Rows.{find_row}
use ai_career_os.Radar.Promote.{
  JobExtraction, PromoteEnv, promoted, promote_row, mark_promoted, find_job_by_url, normalized_url,
  new_job, with_card, add_job, new_analysis, add_analysis, store_job, promote_extracted, promote_to,
  promote_unlinked, promote_posting,
}

promote_row-key :
    (posting_id id : ℕ) (row : Posting) → key (promote_row posting_id id row) ≡ key row
promote_row-key posting_id id row = elim (Bool-cases (row.id == posting_id)) [
  | inl e ↦ rw (e, promote_row)
  | inr e ↦ rw (e, promote_row)
]

promote-keys :
    (posting_id id : ℕ) (rows : List Posting)
    → map key (map (promote_row posting_id id) rows) ≡ map key rows
promote-keys posting_id id [] = refl
promote-keys posting_id id (row ∷ rows) =
    ap₂ ◌∷◌ (promote_row-key posting_id id row) (promote-keys posting_id id rows)

some-injective : {p q : Posting} → ◌≡◌ {A = Option Posting} (some p) (some q) → p ≡ q
some-injective h = cc

promote-fits_columns :
    (posting_id id : ℕ) (rows : List Posting)
    → all fits_columns (map (promote_row posting_id id) rows) ≡ all fits_columns rows
unfolding fits_columns
promote-fits_columns posting_id id [] = refl
promote-fits_columns posting_id id (row ∷ rows) = elim (Bool-cases (row.id == posting_id)) [
  | inl e ↦
      rw (e, promote_row)
        (ap (λ b. fits_columns row && b) (promote-fits_columns posting_id id rows))
  | inr e ↦
      rw (e, promote_row)
        (ap (λ b. fits_columns row && b) (promote-fits_columns posting_id id rows))
]

promote_hit :
    (posting_id id : ℕ) (row : Posting)
    → (row.id == posting_id) ≡ true
    → promote_row posting_id id row ≡ promoted id row
promote_hit posting_id id row h = if_true _ _ h

promote_miss :
    (posting_id id : ℕ) (row : Posting)
    → (row.id == posting_id) ≡ false
    → promote_row posting_id id row ≡ row
promote_miss posting_id id row h = if_false _ _ h

find-promoted :
    (posting_id id : ℕ) (rows : List Posting) {row : Posting}
    → find_row posting_id rows ≡ some row
    → find_row posting_id (map (promote_row posting_id id) rows) ≡ some (promoted id row)
find-promoted posting_id id [] e = absurd cc
find-promoted posting_id id (r ∷ rows) {row} e = elim (Bool-cases (r.id == posting_id)) [
  | inl same ↦
      ap (find_row posting_id)
        (ap (λ p. p ∷ map (promote_row posting_id id) rows) (promote_hit posting_id id r same))
      ∙ if_true _ _ same
      ∙ ap (λ p. some (promoted id p)) (some-injective (sym (if_true _ _ same) ∙ e))
  | inr other ↦
      ap (find_row posting_id)
        (ap (λ p. p ∷ map (promote_row posting_id id) rows) (promote_miss posting_id id r other))
      ∙ if_false _ _ other
      ∙ find-promoted posting_id id rows {row = row} (sym (if_false _ _ other) ∙ e)
]

module _ (env : PromoteEnv) (profile : Profile) (s : Session) (ready : IsReady s) where
  abbrev stored : Posting → Job → Database
  stored posting job =
      mark_promoted posting.id job.id (add_analysis env profile job.id (add_job env job s.rows))

  store_job-eq :
      (posting : Posting) (job : Job) (analysis_id : ℕ)
      → store_job env posting profile job analysis_id s ≡ (
        ok (job, analysis_id),
        record s { rows = stored posting job; saved = stored posting job },
      )
  unfolding store_job mark_promoted
  store_job-eq posting job analysis_id =
      let s1 = change (add_job env job) s in
      let s2 = change (add_analysis env profile job.id) s1 in
      let s3 = change (mark_promoted posting.id job.id) s2 in
      >>=-ok flush
        (λ _. do
          modify (change (add_analysis env profile job.id))
          flush
          modify (change (mark_promoted posting.id job.id))
          commit env.commit_after_failed_flush
          pure (job, analysis_id))
        s1
        (flush-ready s1 (record { unique = ready.unique; fits = ready.fits; sound = ready.sound }))
      ∙ >>=-ok flush
          (λ _. do
            modify (change (mark_promoted posting.id job.id))
            commit env.commit_after_failed_flush
            pure (job, analysis_id))
          s2
          (flush-ready s2
            (record { unique = ready.unique; fits = ready.fits; sound = ready.sound }))
      ∙ >>=-ok (commit env.commit_after_failed_flush) (λ _. pure (job, analysis_id)) s3
          (commit-ready env.commit_after_failed_flush s3 (record {
            unique =
                unique_keys-same _ _ (promote-keys posting.id job.id s.rows.postings)
                ∙ ready.unique;
            fits = promote-fits_columns posting.id job.id s.rows.postings ∙ ready.fits;
            sound = ready.sound;
          }))

  -- On a session that can be committed, a posting that has no job, whose URL is the URL of no job,
  -- and whose text can be structured is promoted: one job and one pending analysis are added, the
  -- row gets the job and is `promoted`, and all of it is saved. To promote that row again then
  -- raises, with the id of the job, and changes nothing.
  pub promote_posting-once :
      (posting : Posting) {extraction : JobExtraction}
      → posting.job_id ≡ none
      → find_row posting.id s.rows.postings ≡ some posting
      → find_job_by_url (normalized_url env posting) s.rows ≡ none
      → env.structure_job posting.description ≡ ok extraction
      → let job = with_card env (
          new_job env posting
            (find_company posting.watched_company_id s.rows)
            extraction
            s.rows.next_id) in
        let (r, s') = promote_posting env posting profile s in
        (r ≡ ok (job, s.rows.next_id + 1))
        × (s'.saved.jobs ≡ s.rows.jobs ++ job ∷ [])
        × (s'.saved.analyses
            ≡ s.rows.analyses ++ new_analysis env profile job.id (s.rows.next_id + 1) ∷ [])
        × (find_row posting.id s'.saved.postings ≡ some (promoted job.id posting))
        × (promote_posting env (promoted job.id posting) profile s'
            ≡ (err (already_promoted job.id), s'))
  unfolding promote_posting promote_unlinked promote_to promote_extracted
  promote_posting-once posting {extraction} unlinked there fresh structured = (
    ap (λ (out : Result (Job × ℕ) × Session). out.0) whole,
    ap (λ (out : Result (Job × ℕ) × Session). out.1.saved.jobs) whole,
    ap (λ (out : Result (Job × ℕ) × Session). out.1.saved.analyses) whole,
    ap (λ (out : Result (Job × ℕ) × Session). find_row posting.id out.1.saved.postings) whole
        ∙ find-promoted posting.id s.rows.next_id s.rows.postings {row = posting} there,
    refl,
  )
    where
      job : Job
      job = with_card env (
          new_job env posting (find_company posting.watched_company_id s.rows) extraction
            s.rows.next_id)

      whole : promote_posting env posting profile s ≡ (
        ok (job, s.rows.next_id + 1),
        record s { rows = stored posting job; saved = stored posting job },
      )
      whole =
          ap (λ (id : Option ℕ). promote_unlinked env posting profile id s) unlinked
          ∙ ap (λ (found : Option Job). promote_to env posting profile found s) fresh
          ∙ ap (λ (answer : Result JobExtraction). promote_extracted env posting profile answer s)
              structured
          ∙ store_job-eq posting job (s.rows.next_id + 1)

  -- On a session that can be committed, a posting that has no job, but whose URL is the URL of a
  -- job, is linked to it: the promotion raises with the id of that job, no job and no analysis is
  -- added, and the row is saved with that job and as `promoted`.
  pub promote_posting-linked :
      (posting : Posting) {found : Job}
      → posting.job_id ≡ none
      → find_row posting.id s.rows.postings ≡ some posting
      → find_job_by_url (normalized_url env posting) s.rows ≡ some found
      → let (r, s') = promote_posting env posting profile s in
        (r ≡ err (already_promoted found.id))
        × (s'.saved.jobs ≡ s.rows.jobs)
        × (s'.saved.analyses ≡ s.rows.analyses)
        × (find_row posting.id s'.saved.postings ≡ some (promoted found.id posting))
  unfolding promote_posting promote_unlinked promote_to mark_promoted
  promote_posting-linked posting {found} unlinked there known = (
    ap (λ (out : Result (Job × ℕ) × Session). out.0) whole,
    ap (λ (out : Result (Job × ℕ) × Session). out.1.saved.jobs) whole,
    ap (λ (out : Result (Job × ℕ) × Session). out.1.saved.analyses) whole,
    ap (λ (out : Result (Job × ℕ) × Session). find_row posting.id out.1.saved.postings) whole
        ∙ find-promoted posting.id found.id s.rows.postings {row = posting} there,
  )
    where
      linked : Session
      linked = change (mark_promoted posting.id found.id) s

      whole :
          promote_posting env posting profile s
          ≡ (err (already_promoted found.id), record linked { saved = linked.rows })
      whole =
          ap (λ (id : Option ℕ). promote_unlinked env posting profile id s) unlinked
          ∙ ap (λ (job : Option Job). promote_to env posting profile job s) known
          ∙ >>=-ok (commit env.commit_after_failed_flush) (λ _. raise (already_promoted found.id))
              linked
              (commit-ready env.commit_after_failed_flush linked (record {
                unique =
                    unique_keys-same _ _ (promote-keys posting.id found.id s.rows.postings)
                    ∙ ready.unique;
                fits = promote-fits_columns posting.id found.id s.rows.postings ∙ ready.fits;
                sound = ready.sound;
              }))
