-- ===== src/Radar/Poller/Invariant.antt =====
-- The session of a poll: the steps of app/services/radar/poller.py that change it.
use ai_career_os.Common.{
  ℕ, ◌≡◌, refl, ap, sym, subst, ◌∙◌, true, false, List, [], ◌∷◌, map, all, Bool-cases, inl, inr,
  if_true, ◌==◌,
}
use mathlib.Core.Path.{ap₂}
use ai_career_os.Common.Exec.{Result, ok, err, Exec, Post}
use ai_career_os.Radar.Model.{RawPosting, WatchedCompany, Posting}
use ai_career_os.Radar.Database.{
  Database, Session, update_row, update_company, change, commit, commit-ready, IsReady,
  fits_columns,
}
use ai_career_os.Radar.Screener.Loop.{Client, Scored}
use ai_career_os.Radar.Poller.{Poll, on_session, on_calls}
use ai_career_os.Radar.Postings.{
  known_external_ids, unscreened_postings, store_items, store_postings, write_back, written_over,
}
use ai_career_os.Radar.Postings.Keys.{distinct, fresh_ids}
use ai_career_os.Radar.Postings.Rows.{Evolved, Evolved-trans, IsTable, distinct_ids-Found}
use ai_career_os.Radar.Postings.Ids.{
  KeepsAll-Evolved, map-AllBelow, map-distinct_ids, unique_keys-map,
}
use ai_career_os.Radar.Postings.Store.{
  store_items-Evolved, store_items-HasIds, companies-store_items, unique_after, store_postings-eq,
}
use ai_career_os.Radar.Postings.Widths.{store_items-fits, item_fits}
use ai_career_os.Radar.Postings.Screening.{
  unscreened_postings-Pending, written_over-KeepsAll, written_over-all-fits,
}

-- `base` is the database before the poll. `Clean` says that no flush can fail.
pub record Inv (base : Database) (Clean : Type 0) (s : Session) : Type 0 where
  pub table : IsTable s.rows
  pub saved_table : IsTable s.saved
  pub evolved : Evolved base.postings s.rows.postings
  pub saved_evolved : Evolved base.postings s.saved.postings
  pub watched : map (λ c. c.id) s.rows.companies ≡ map (λ c. c.id) base.companies
  pub saved_watched : map (λ c. c.id) s.saved.companies ≡ map (λ c. c.id) base.companies
  pub sound : Clean → s.needs_rollback ≡ false

update_row-id :
    (id : ℕ) (f : WatchedCompany → WatchedCompany) (keeps : (c : WatchedCompany) → (f c).id ≡ c.id)
    (c : WatchedCompany)
    → (update_row id f c).id ≡ c.id
unfolding update_row
update_row-id id f keeps c = elim (Bool-cases (c.id == id)) [
  | inl e ↦ rw e (keeps c)
  | inr e ↦ rw e
]

ids-update :
    (id : ℕ) (f : WatchedCompany → WatchedCompany)
    → ((c : WatchedCompany) → (f c).id ≡ c.id)
    → (rows : List WatchedCompany)
    → map (λ c. c.id) (map (update_row id f) rows) ≡ map (λ c. c.id) rows
ids-update id f keeps [] = refl
ids-update id f keeps (c ∷ rows) = ap₂ ◌∷◌ (update_row-id id f keeps c) (ids-update id f keeps rows)

module _ {base : Database} {Clean : Type 0} where
  pub update_company-Inv :
      (id : ℕ) (f : WatchedCompany → WatchedCompany) {s : Session}
      → ((c : WatchedCompany) → (f c).id ≡ c.id)
      → Inv base Clean s
      → Inv base Clean (change (update_company id f) s)
  unfolding update_company
  update_company-Inv id f {s} keeps h = record {
    table = record {
      unique = h.table.unique;
      fits = h.table.fits;
      primary = h.table.primary;
      below = h.table.below;
    };
    saved_table = h.saved_table;
    evolved = h.evolved;
    saved_evolved = h.saved_evolved;
    watched = ids-update id f keeps s.rows.companies ∙ h.watched;
    saved_watched = h.saved_watched;
    sound = h.sound;
  }

  save-Inv :
      {s : Session}
      → Inv base Clean s
      → Inv base Clean (record s { saved = s.rows; needs_rollback = false })
  save-Inv h = record {
    table = h.table;
    saved_table = h.table;
    evolved = h.evolved;
    saved_evolved = h.evolved;
    watched = h.watched;
    saved_watched = h.watched;
    sound = λ c. refl;
  }

  saved-Inv :
      {s : Session}
      → Inv base Clean s
      → s.needs_rollback ≡ false
      → Inv base Clean (record s { saved = s.rows })
  saved-Inv h sound = record {
    table = h.table;
    saved_table = h.table;
    evolved = h.evolved;
    saved_evolved = h.evolved;
    watched = h.watched;
    saved_watched = h.watched;
    sound = λ c. sound;
  }

  pub IsReady-Inv : {s : Session} → Inv base Clean s → s.needs_rollback ≡ false → IsReady s
  IsReady-Inv h sound = record { unique = h.table.unique; fits = h.table.fits; sound = sound }

  commit_rolled_back :
      (r : Result (Unit {0})) (s : Session)
      → s.needs_rollback ≡ true
      → Inv base Clean s
      → Inv base Clean (commit r s).1
  unfolding commit
  commit_rolled_back (ok _) s broken h =
      subst (λ (out : Result (Unit {0}) × Session). Inv base Clean out.1) (sym (if_true _ _ broken))
        (save-Inv h)
  commit_rolled_back (err e) s broken h =
      subst (λ (out : Result (Unit {0}) × Session). Inv base Clean out.1) (sym (if_true _ _ broken))
        h

  pub commit-Inv :
      (r : Result (Unit {0})) (s : Session) → Inv base Clean s → Inv base Clean (commit r s).1
  commit-Inv r s h = elim (Bool-cases s.needs_rollback) [
    | inl broken ↦ commit_rolled_back r s broken h
    | inr sound ↦ rw (commit-ready r s (IsReady-Inv h sound)) (saved-Inv h sound)
  ]

  rolled_back-Inv :
      {s : Session}
      → Inv base Clean s
      → (Clean → ⊥)
      → Inv base Clean (record s { rows = s.saved; needs_rollback = true })
  rolled_back-Inv h dirty = record {
    table = h.saved_table;
    saved_table = h.saved_table;
    evolved = h.saved_evolved;
    saved_evolved = h.saved_evolved;
    watched = h.saved_watched;
    saved_watched = h.saved_watched;
    sound = λ c. absurd (dirty c);
  }

  pub store_postings-Inv :
      (now : ℕ) (company : WatchedCompany) (items : List RawPosting) (s : Session)
      → (Clean → distinct (fresh_ids (known_external_ids company.id s.rows) items) ≡ true)
      → (Clean → all item_fits items ≡ true)
      → Inv base Clean s
      → Inv base Clean (store_postings now company items s).1
  store_postings-Inv now company items s fresh fit h =
      let known = known_external_ids company.id s.rows in
      let ids =
        store_items-HasIds now company known items s.rows (h.table.primary, h.table.below) in
      let rows = (store_items now company known items s.rows).postings in
      elim (Bool-cases (all fits_columns rows)) [
        | inr wide ↦
            rw (store_postings-eq now company items s h.table, wide)
              (rolled_back-Inv h (λ c.
                cc (store_items-fits now company known items s.rows (fit c) h.table.fits, wide)))
        | inl fits ↦ elim (Bool-cases (distinct (fresh_ids known items))) [
          | inr twice ↦
              rw (store_postings-eq now company items s h.table, fits, twice)
                (rolled_back-Inv h (λ c. cc (fresh c, twice)))
          | inl unique ↦
              rw (store_postings-eq now company items s h.table, fits, unique)
                (record {
                  table = record {
                    unique = unique_after now company items s.rows h.table ∙ unique;
                    fits = fits;
                    primary = ids.0;
                    below = ids.1;
                  };
                  saved_table = h.saved_table;
                  evolved =
                      Evolved-trans base.postings h.evolved
                        (store_items-Evolved now company known items s.rows);
                  saved_evolved = h.saved_evolved;
                  watched =
                      ap (map (λ c. c.id)) (companies-store_items now company known items s.rows)
                      ∙ h.watched;
                  saved_watched = h.saved_watched;
                  sound = h.sound;
                })
        ]
      ]

  pub write_back-Inv :
      {client : Client} (company_id : ℕ) (s : Session) {qs : List Posting} {n : ℕ}
      → Scored client (unscreened_postings company_id s.rows) qs n
      → Inv base Clean s
      → Inv base Clean (change (write_back qs) s)
  unfolding write_back
  write_back-Inv company_id s {qs} scored h =
      let keeps =
        written_over-KeepsAll s.rows.postings scored
          (unscreened_postings-Pending company_id s.rows h.table.primary) s.rows.postings
          (distinct_ids-Found s.rows.postings h.table.primary) in
      record {
        table = record {
          unique = unique_keys-map (written_over qs) s.rows.postings keeps ∙ h.table.unique;
          fits =
              written_over-all-fits s.rows.postings scored
                (unscreened_postings-Pending company_id s.rows h.table.primary) s.rows.postings
                (distinct_ids-Found s.rows.postings h.table.primary)
              ∙ h.table.fits;
          primary = map-distinct_ids (written_over qs) s.rows.postings keeps ∙ h.table.primary;
          below = map-AllBelow (written_over qs) s.rows.next_id s.rows.postings keeps h.table.below;
        };
        saved_table = h.saved_table;
        evolved =
            Evolved-trans base.postings h.evolved
              (KeepsAll-Evolved (written_over qs) s.rows.postings keeps);
        saved_evolved = h.saved_evolved;
        watched = h.watched;
        saved_watched = h.saved_watched;
        sound = h.sound;
      }

-- a computation that only changes the session, or only counts calls
module _ {A : Type 0} (Q : A → Poll → Type 0) (E : Poll → Type 0) where
  pub on_session-Post :
      (m : Exec Session A) (p : Poll)
      → ((a : A) → Q a (record p { session = (m p.session).1 }))
      → E (record p { session = (m p.session).1 })
      → Post Q E (on_session m p)
  on_session-Post m p h k = go (m p.session) h k
    where
      go :
          (out : Result A × Session)
          → ((a : A) → Q a (record p { session = out.1 }))
          → E (record p { session = out.1 })
          → Post Q E (out.0, record p { session = out.1 })
      go (ok a, s) h k = h a
      go (err e, s) h k = k

  pub on_calls-Post :
      (m : Exec ℕ A) (p : Poll)
      → Post (λ a n. Q a (record p { calls = n })) (λ n. E (record p { calls = n })) (m p.calls)
      → Post Q E (on_calls m p)
  on_calls-Post m p h = go (m p.calls) h
    where
      go :
          (out : Result A × ℕ)
          → Post (λ a n. Q a (record p { calls = n })) (λ n. E (record p { calls = n })) out
          → Post Q E (out.0, record p { calls = out.1 })
      go (ok a, n) h = h
      go (err e, n) h = h
