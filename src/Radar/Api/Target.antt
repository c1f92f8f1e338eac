-- ===== src/Radar/Api/Target.antt =====
-- `set_radar_target` of app/api/radar.py, with `due_company_ids` of app/services/radar/poller.py.
use ai_career_os.Common.{
  ℕ, ◌≡◌, refl, ap, sym, ◌∙◌, String, Bool, true, false, not, ◌&&◌, ◌||◌, Option, none, some, List,
  [], ◌∷◌, map, ◌==◌, any, all, All, filter, find?, length, member, count_if, arith, Bool-cases,
  inl, inr, if_true, if_false,
}
use mathlib.Core.Path.{ap₂}
use ai_career_os.Common.Text.{strip, or_blank, non_blank}
use ai_career_os.Common.Exec.{Result, ok, >>=-ok, pure}
use ai_career_os.Radar.Model.{Posting, Profile, WatchedCompany}
use ai_career_os.Radar.Database.{
  Session, IsReady, find_profile, fits_columns, same_key, unique_keys, change, commit, commit-ready,
}
use ai_career_os.Radar.Due.{due_company_ids, is_due, interval_days}
use ai_career_os.Radar.Api.{
  is_cleared, is_repolled, forget_poll, set_target, retarget, RadarTargetRead, set_radar_target,
}

any-filter :
    (p q : Posting → Bool) (rows : List Posting)
    → any p rows ≡ false
    → any p (filter q rows) ≡ false
any-filter p q [] h = refl
any-filter p q (r ∷ rows) h = elim (Bool-cases (q r)) [
  | inl e ↦ rw e (ground (arith, h, any-filter p q rows))
  | inr e ↦ rw e (any-filter p q rows (ground (arith, h)))
]

unique_keys-filter :
    (q : Posting → Bool) (rows : List Posting)
    → unique_keys rows ≡ true
    → unique_keys (filter q rows) ≡ true
unfolding unique_keys
unique_keys-filter q [] h = refl
unique_keys-filter q (r ∷ rows) h = elim (Bool-cases (q r)) [
  | inl e ↦ rw e (ground (arith, any-filter (same_key r) q rows, unique_keys-filter q rows, h))
  | inr e ↦ rw e (unique_keys-filter q rows (ground (arith, h)))
]

length-filter {ℓ} : {A : Type ℓ} (p : A → Bool) (xs : List A) → length (filter p xs) ≡ count_if p xs
length-filter p [] = refl
length-filter p (x ∷ xs) = ground (arith, length-filter p xs)

none-cleared :
    (id : ℕ) (rows : List Posting)
    → All (λ row. is_cleared id row ≡ false) (filter (λ row. not (is_cleared id row)) rows)
none-cleared id [] = tt
none-cleared id (r ∷ rows) = elim (Bool-cases (is_cleared id r)) [
  | inl e ↦ rw e (none-cleared id rows)
  | inr e ↦ rw e (e, none-cleared id rows)
]

decided-kept :
    (id : ℕ) (q : Posting → Bool) (rows : List Posting)
    → count_if (λ p. q p && not (is_cleared id p)) (filter (λ row. not (is_cleared id row)) rows)
      ≡ count_if (λ p. q p && not (is_cleared id p)) rows
decided-kept id q [] = refl
decided-kept id q (r ∷ rows) = elim (Bool-cases (is_cleared id r)) [
  | inl e ↦ rw e (ground (arith, e, decided-kept id q rows))
  | inr e ↦ rw e (ground (arith, e, decided-kept id q rows))
]

forget_poll-id : (profile_id : ℕ) (c : WatchedCompany) → (forget_poll profile_id c).id ≡ c.id
forget_poll-id profile_id c = elim (Bool-cases (is_repolled profile_id c)) [
  | inl e ↦ ap (λ (x : WatchedCompany). x.id) (if_true _ _ e)
  | inr e ↦ ap (λ (x : WatchedCompany). x.id) (if_false _ _ e)
]

due-forget :
    (profile_id moment days : ℕ) (c : WatchedCompany)
    → is_due moment days (forget_poll profile_id c)
      ≡ (is_repolled profile_id c || is_due moment days c)
unfolding is_due
due-forget profile_id moment days c = elim (Bool-cases (is_repolled profile_id c)) [
  | inl e ↦ rw e (ground (arith, e))
  | inr e ↦ rw e refl
]

member-filter :
    (p : WatchedCompany → Bool) (id : ℕ) (c : WatchedCompany) (rows : List WatchedCompany)
    → member id (map (λ c. c.id) (filter p (c ∷ rows)))
      ≡ ((id == c.id && p c) || member id (map (λ c. c.id) (filter p rows)))
member-filter p id c rows = elim (Bool-cases (p c)) [
  | inl e ↦ rw e (ground arith)
  | inr e ↦ rw e (ground arith)
]

regroup :
    (m n : ℕ) (r d a b : Bool)
    → ((m == n && (r || d)) || (a || b)) ≡ ((n == m && r || a) || ((m == n && d) || b))
regroup m n r d a b = ground arith

due_ids-forget :
    (profile_id moment days id : ℕ) (rows : List WatchedCompany)
    → member id (map (λ c. c.id) (filter (is_due moment days) (map (forget_poll profile_id) rows)))
      ≡ (any (λ c. c.id == id && is_repolled profile_id c) rows
          || member id (map (λ c. c.id) (filter (is_due moment days) rows)))
due_ids-forget profile_id moment days id [] = refl
due_ids-forget profile_id moment days id (c ∷ rows) =
    let due = is_due moment days in
    let asked = any (λ d. d.id == id && is_repolled profile_id d) rows in
    let before = member id (map (λ c. c.id) (filter due rows)) in
    member-filter due id (forget_poll profile_id c) (map (forget_poll profile_id) rows)
    ∙ ap₂ (λ here later. here || later)
        (ap₂ (λ i d. id == i && d) (forget_poll-id profile_id c)
          (due-forget profile_id moment days c))
        (due_ids-forget profile_id moment days id rows)
    ∙ regroup id c.id (is_repolled profile_id c) (due c) asked before
    ∙ ap (λ later. (c.id == id && is_repolled profile_id c || asked) || later)
        (sym (member-filter due id c rows))

find-set_target :
    (id : ℕ) (target : Option String) (rows : List Profile) {row : Profile}
    → find? (λ p. p.id == id) rows ≡ some row
    → find? (λ p. p.id == id) (map (set_target id target) rows)
      ≡ some (record row { radar_target = target })
find-set_target id target [] e = absurd cc
find-set_target id target (p ∷ rows) {row} e = elim (Bool-cases (p.id == id)) [
  | inl same ↦ rw same (
      rw same (
        ap
          (λ (x : Option Profile). elim x [
            | none ↦ none
            | some r ↦ some (record r { radar_target = target })
          ])
          (sym (if_true _ _ same) ∙ e)))
  | inr other ↦
      rw other
        (rw other (find-set_target id target rows {row = row} (sym (if_false _ _ other) ∙ e)))
]

all-filter :
    (p q : Posting → Bool) (rows : List Posting) → all p rows ≡ true → all p (filter q rows) ≡ true
all-filter p q [] h = refl
all-filter p q (r ∷ rows) h = elim (Bool-cases (q r)) [
  | inl e ↦ rw e (ground (arith, h, all-filter p q rows))
  | inr e ↦ rw e (all-filter p q rows (ground (arith, h)))
]

-- Setting the target of a profile that is there, on a session that can be committed, saves the
-- profile with the text of the target, stripped, or with none if it is blank. It returns how many
-- postings it cleared: no open posting of the profile is left, and as many of the other postings
-- pass any test as before. At any moment the due companies are those that were due before and all
-- active ones of the profile.
pub set_radar_target-effect :
    (r : Result (Unit {0})) (target : Option String) (profile : Profile) (s : Session)
    (company_id moment : ℕ) (q : Posting → Bool) {row : Profile}
    → IsReady s
    → find_profile profile.id s.rows ≡ some row
    → let (answer, s') = set_radar_target r target profile s in
      let wanted = non_blank (strip (or_blank target)) in
      (answer
        ≡ ok (record {
          radar_target = wanted;
          cleared_postings = count_if (is_cleared profile.id) s.rows.postings;
          repolled_companies = count_if (is_repolled profile.id) s.rows.companies;
        }))
      × (find_profile profile.id s'.saved ≡ some (record row { radar_target = wanted }))
      × All (λ p. is_cleared profile.id p ≡ false) s'.saved.postings
      × (count_if (λ p. q p && not (is_cleared profile.id p)) s'.saved.postings
          ≡ count_if (λ p. q p && not (is_cleared profile.id p)) s.rows.postings)
      × (member company_id (due_company_ids moment s'.saved) ≡ (
          any (λ c. c.id == company_id && is_repolled profile.id c) s.rows.companies
          || member company_id (due_company_ids moment s.rows)))
unfolding set_radar_target retarget
set_radar_target-effect r target profile s company_id moment q {row} ready there = rw done (
  ap₂ (λ (m n : ℕ). ok (answer m n)) (length-filter (is_cleared profile.id) s.rows.postings)
      (length-filter (is_repolled profile.id) s.rows.companies),
  find-set_target profile.id wanted s.rows.profiles {row = row} there,
  none-cleared profile.id s.rows.postings,
  decided-kept profile.id q s.rows.postings,
  (unfold due_company_ids interval_days in
      due_ids-forget profile.id moment (interval_days s.rows) company_id s.rows.companies),
)
  where
    wanted : Option String
    wanted = non_blank (strip (or_blank target))

    after : Session
    after = change (retarget profile wanted) s

    answer : ℕ → ℕ → RadarTargetRead
    answer cleared repolled = record {
      radar_target = wanted;
      cleared_postings = cleared;
      repolled_companies = repolled;
    }

    counted : RadarTargetRead
    counted =
        answer (length (filter (is_cleared profile.id) s.rows.postings))
          (length (filter (is_repolled profile.id) s.rows.companies))

    done : set_radar_target r target profile s ≡ (ok counted, record after { saved = after.rows })
    done =
        >>=-ok (commit r) (λ _. pure counted) after
          (commit-ready r after (record {
            unique =
                unique_keys-filter (λ row. not (is_cleared profile.id row)) s.rows.postings
                  ready.unique;
            fits =
                all-filter fits_columns (λ row. not (is_cleared profile.id row)) s.rows.postings
                  ready.fits;
            sound = ready.sound;
          }))
