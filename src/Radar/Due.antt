-- ===== src/Radar/Due.antt =====
-- `due_company_ids` of app/services/radar/poller.py, with the interval of
-- app/services/settings_service.py and app/schemas/radar.py.
use ai_career_os.Common.{
  ℕ, ◌+◌, ◌*◌, ◌≤◌, ◌≡◌, refl, ap, sym, ◌∙◌, String, Bool, true, false, not, ◌&&◌, Option, none,
  some, List, [], ◌∷◌, map, leb, str_eq, if◌then◌else◌, filter, any, find?, member, ◌==◌, arith,
  Bool-cases, leb→le, if_true, if_false, inl, inr, ◌⊎◌, ◌↔◌,
}
use ai_career_os.Radar.Model.{WatchedCompany, CompanyStatus, is_active}
use ai_career_os.Radar.Database.{Database, find_company}

-- a day, in microseconds
abbrev pub day : ℕ
day = 86_400_000_000

-- `POLL_INTERVAL_DAYS`, of app/schemas/radar.py
abbrev pub poll_interval_days : String → Option ℕ
poll_interval_days interval =
    if str_eq interval "daily"
    then some 1
    else if str_eq interval "3d"
    then some 3
    else if str_eq interval "weekly"
    then some 7
    else none

-- `get_radar_poll_interval` and the lookup in `due_company_ids`
unfoldable pub interval_days : Database → ℕ
interval_days db = elim db.radar_poll_interval [
  | none ↦ 1
  | some interval ↦ elim (poll_interval_days interval) [ none ↦ 1 | some days ↦ days ]
]

-- `last_polled_at IS NULL OR last_polled_at <= cutoff`, with `cutoff = moment - interval`
unfoldable pub is_due : ℕ → ℕ → WatchedCompany → Bool
is_due moment days company =
    is_active company.status
    && elim company.last_polled_at [ none ↦ true | some polled ↦ leb (polled + days * day) moment ]

unfoldable pub due_company_ids : ℕ → Database → List ℕ
unfolding is_due interval_days
due_company_ids moment db =
    map (λ company. company.id) (filter (is_due moment (interval_days db)) db.companies)

-- the ids of the companies are a primary key
abbrev pub distinct_companies : List WatchedCompany → Bool
distinct_companies [] = true
distinct_companies (c ∷ cs) = not (any (λ d. d.id == c.id) cs) && distinct_companies cs

absent-due :
    (moment days id : ℕ) (rows : List WatchedCompany)
    → any (λ d. d.id == id) rows ≡ false
    → member id (map (λ c. c.id) (filter (is_due moment days) rows)) ≡ false
absent-due moment days id [] h = refl
absent-due moment days id (c ∷ rows) h = elim (Bool-cases (is_due moment days c)) [
  | inl e ↦ rw e (ground (arith, h, absent-due moment days id rows))
  | inr e ↦ rw e (absent-due moment days id rows (ground (arith, h)))
]

some-injective : {c d : WatchedCompany} → ◌≡◌ {A = Option WatchedCompany} (some c) (some d) → c ≡ d
some-injective h = cc

first-due :
    (moment days id : ℕ) (r : WatchedCompany) (rows : List WatchedCompany)
    → any (λ d. d.id == id) rows ≡ false
    → (r.id == id) ≡ true
    → member id (map (λ c. c.id) (filter (is_due moment days) (r ∷ rows))) ≡ is_due moment days r
first-due moment days id r rows h same = elim (Bool-cases (is_due moment days r)) [
  | inl e ↦ rw e (ground (arith, same))
  | inr e ↦ rw e (absent-due moment days id rows h)
]

later-due :
    (moment days id : ℕ) (r : WatchedCompany) (rows : List WatchedCompany)
    → (r.id == id) ≡ false
    → member id (map (λ c. c.id) (filter (is_due moment days) (r ∷ rows)))
      ≡ member id (map (λ c. c.id) (filter (is_due moment days) rows))
later-due moment days id r rows other = elim (Bool-cases (is_due moment days r)) [
  | inl e ↦ rw e (ground (arith, other))
  | inr e ↦ rw e
]

-- the list of the due ids answers for the row with the id
due-row :
    (moment days id : ℕ) (rows : List WatchedCompany) {c : WatchedCompany}
    → distinct_companies rows ≡ true
    → find? (λ d. d.id == id) rows ≡ some c
    → member id (map (λ c. c.id) (filter (is_due moment days) rows)) ≡ is_due moment days c
due-row moment days id [] h e = absurd cc
due-row moment days id (r ∷ rows) {c} h e = elim (Bool-cases (r.id == id)) [
  | inl same ↦
      first-due moment days id r rows (ground (arith, h, same)) same
      ∙ ap (is_due moment days) (some-injective (sym (if_true _ _ same) ∙ e))
  | inr other ↦
      later-due moment days id r rows other
      ∙ due-row moment days id rows {c = c} (ground (arith, h)) (sym (if_false _ _ other) ∙ e)
]

-- The time between two polls that a value of the setting stands for, in microseconds: a day, three
-- days or a week, and a day where it is unset or is none of the three.
pub data Waits : Option String → ℕ → Type 0 where
  unset : Waits none 86_400_000_000
  daily : Waits (some "daily") 86_400_000_000
  three_days : Waits (some "3d") 259_200_000_000
  weekly : Waits (some "weekly") 604_800_000_000
  unknown :
      (interval : String)
      → str_eq interval "daily" ≡ false
      → str_eq interval "3d" ≡ false
      → str_eq interval "weekly" ≡ false
      → Waits (some interval) 86_400_000_000

-- active, and never polled or last polled at least `wait` before the moment
abbrev pub WantsPoll : ℕ → ℕ → WatchedCompany → Type 0
WantsPoll moment wait company =
    (company.status ≡ CompanyStatus.active)
    × ((company.last_polled_at ≡ none)
        ⊎ ((polled : ℕ) × (company.last_polled_at ≡ some polled) × (polled + wait ≤ moment)))

days_of : Option String → ℕ
days_of interval = elim interval [
  | none ↦ 1
  | some i ↦ elim (poll_interval_days i) [ none ↦ 1 | some days ↦ days ]
]

days-Waits :
    {interval : Option String} {wait : ℕ} → Waits interval wait → days_of interval * day ≡ wait
unfolding days_of
days-Waits unset = refl
days-Waits daily = refl
days-Waits three_days = refl
days-Waits weekly = refl
days-Waits (unknown interval d t w) =
    ap (λ (days : Option ℕ). elim days [ none ↦ 1 | some n ↦ n ] * day)
      (if_false _ _ d ∙ if_false _ _ t ∙ if_false _ _ w)

is_due-WantsPoll :
    (moment days wait : ℕ) (company : WatchedCompany)
    → days * day ≡ wait
    → (is_due moment days company ≡ true) ↔ WantsPoll moment wait company
unfolding is_due
is_due-WantsPoll moment days wait company e = go company.status company.last_polled_at
  where
    same_time : (t polled : ℕ) → ◌≡◌ {A = Option ℕ} (some t) (some polled) → t ≡ polled
    same_time t polled h = cc

    came_before :
        (t : ℕ)
        → ((some t ≡ none)
            ⊎ ((polled : ℕ) × (◌≡◌ {A = Option ℕ} (some t) (some polled))
                × (polled + wait ≤ moment)))
        → leb (t + days * day) moment ≡ true
    came_before t (inl k) = absurd (cc k)
    came_before t (inr (polled, k, before)) =
        let same = same_time t polled k in
        let total : t + days * day ≤ moment = omega (arith, same, e, before) in
        ground (arith, total)

    go :
        (status : CompanyStatus) (last : Option ℕ)
        → ((is_active status
              && elim last [ none ↦ true | some polled ↦ leb (polled + days * day) moment ])
            ≡ true)
          ↔ ((status ≡ CompanyStatus.active)
              × ((last ≡ none) ⊎ ((polled : ℕ) × (last ≡ some polled) × (polled + wait ≤ moment))))
    go CompanyStatus.active none = (λ h. (refl, inl refl), λ h. refl)
    go CompanyStatus.active (some t) = (
      λ h. (refl, inr (t, refl, omega (arith, e, leb→le (t + days * day) moment h))),
      λ h. came_before t h.1,
    )
    go CompanyStatus.unresolved last = (λ h. absurd (cc h), λ h. absurd (cc (h.0)))
    go CompanyStatus.paused last = (λ h. absurd (cc h), λ h. absurd (cc (h.0)))
    go CompanyStatus.error last = (λ h. absurd (cc h), λ h. absurd (cc (h.0)))

-- Where the ids of the companies are distinct, and the setting stands for a time of waiting, a
-- company is among the due ones exactly when it is active, and it was never polled or its last poll
-- was at least that long before the moment.
pub due_company_ids-WantsPoll :
    (moment company_id wait : ℕ) (db : Database) {company : WatchedCompany}
    → distinct_companies db.companies ≡ true
    → find_company company_id db ≡ some company
    → Waits db.radar_poll_interval wait
    → (member company_id (due_company_ids moment db) ≡ true) ↔ WantsPoll moment wait company
unfolding due_company_ids interval_days days_of
due_company_ids-WantsPoll moment company_id wait db {company} h e waits =
    let same = due-row moment (interval_days db) company_id db.companies h e in
    let iff = is_due-WantsPoll moment (interval_days db) wait company (days-Waits waits) in
    (λ due. iff.0 (sym same ∙ due), λ wants. same ∙ iff.1 wants)
