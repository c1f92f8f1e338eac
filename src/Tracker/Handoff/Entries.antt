-- ===== src/Tracker/Handoff/Entries.antt =====
-- The entries of the store of app/services/job_intake_handoff.py under its operations.
use ai_career_os.Common.{
  ℕ, ◌+◌, ◌≤◌, ◌≡◌, refl, ap, subst, ◌∙◌, Bool, true, false, not, Option, none, some, [], ◌∷◌, ltb,
  ◌==◌, filter, any, arith, Bool-cases, inl, inr, if_true, if_false, if◌then◌else◌, no_two,
  or_false, and_true, not-true,
}
use ai_career_os.Tracker.Handoff.{
  JobIntakeHandoff, Store, is_expired, purge_expired, set_entry, get_entry, pop_entry,
}

-- two entries under one key
abbrev pub same_id : JobIntakeHandoff → JobIntakeHandoff → Bool
same_id a b = a.id == b.id

-- what a look-up may see of an entry
abbrev pub live_at : ℕ → Option JobIntakeHandoff → Option JobIntakeHandoff
live_at now none = none
live_at now (some entry) = if ltb (entry.created_at + 1800000000) now then none else some entry

==-sound : (a b : ℕ) → (a == b) ≡ true → a ≡ b
==-sound a b h = ground (arith, h)

==-refl : (a : ℕ) → (a == a) ≡ true
==-refl a = ground arith

pub still_expired : (p now t : ℕ) → p ≤ now → ltb t p ≡ true → ltb t now ≡ true
still_expired p now t h k = ground (arith, h, k)

-- an id that no entry has
pub absent :
    (q : JobIntakeHandoff → Bool) (id : ℕ) (store : Store)
    → any (λ entry. id == entry.id) store ≡ false
    → get_entry id (filter q store) ≡ none
absent q id [] h = refl
absent q id (entry ∷ rest) h =
    let (other, later) = or_false (id == entry.id) _ h in
    elim (Bool-cases (q entry)) [
      | inl kept ↦ rw kept (if_false _ _ (flipped id entry.id other) ∙ absent q id rest later)
      | inr dropped ↦ rw dropped (absent q id rest later)
    ]
  where
    flipped : (a b : ℕ) → (a == b) ≡ false → (b == a) ≡ false
    flipped a b h = ground (arith, h)

any-filter :
    (p q : JobIntakeHandoff → Bool) (store : Store)
    → any p store ≡ false
    → any p (filter q store) ≡ false
any-filter p q [] h = refl
any-filter p q (entry ∷ rest) h =
    let (first, later) = or_false (p entry) (any p rest) h in
    elim (Bool-cases (q entry)) [
      | inl kept ↦ rw kept (rw first (any-filter p q rest later))
      | inr dropped ↦ rw dropped (any-filter p q rest later)
    ]

pub no_two-filter :
    (q : JobIntakeHandoff → Bool) (store : Store)
    → no_two same_id store ≡ true
    → no_two same_id (filter q store) ≡ true
no_two-filter q [] h = refl
no_two-filter q (entry ∷ rest) h =
    let (first, later) = and_true (not (any (same_id entry) rest)) (no_two same_id rest) h in
    elim (Bool-cases (q entry)) [
      | inl kept ↦ rw kept (
          rw (any-filter (same_id entry) q rest (not-true (any (same_id entry) rest) first))
            (no_two-filter q rest later))
      | inr dropped ↦ rw dropped (no_two-filter q rest later)
    ]

-- a purge takes away nothing that a later look-up could see
pub live_at-purge :
    (p now id : ℕ) (store : Store)
    → p ≤ now
    → no_two same_id store ≡ true
    → live_at now (get_entry id (purge_expired p store)) ≡ live_at now (get_entry id store)
live_at-purge p now id [] h k = refl
live_at-purge p now id (entry ∷ rest) h k =
    let (first, later) = and_true (not (any (same_id entry) rest)) (no_two same_id rest) k in
    elim (Bool-cases (is_expired p entry)) [
      | inl gone ↦ elim (Bool-cases (entry.id == id)) [
        | inl same ↦ rw gone (
            rw same (
              rw (still_expired p now _ h gone) (
                ap (live_at now) (
                  absent _ id rest (
                    subst (λ i. any (λ e. i == e.id) rest ≡ false) (==-sound entry.id id same)
                      (not-true (any (same_id entry) rest) first))))))
        | inr other ↦ rw gone (rw other (live_at-purge p now id rest h later))
      ]
      | inr kept ↦ elim (Bool-cases (entry.id == id)) [
        | inl same ↦ rw kept (rw same refl)
        | inr other ↦ rw kept (rw other (live_at-purge p now id rest h later))
      ]
    ]

pub get_entry-set_entry :
    (handoff : JobIntakeHandoff) (id : ℕ) (store : Store)
    → get_entry id (set_entry handoff store)
      ≡ (if handoff.id == id then some handoff else get_entry id store)
unfolding set_entry
get_entry-set_entry handoff id [] = refl
get_entry-set_entry handoff id (entry ∷ rest) = elim (Bool-cases (entry.id == handoff.id)) [
  | inl replaced ↦ elim (Bool-cases (handoff.id == id)) [
    | inl same ↦ rw replaced (rw same refl)
    | inr other ↦
        rw replaced
          (rw (other, ap (λ i. i == id) (==-sound entry.id handoff.id replaced) ∙ other) refl)
  ]
  | inr kept ↦ elim (Bool-cases (handoff.id == id)) [
    | inl same ↦ rw kept (
        rw (same, subst (λ i. (entry.id == i) ≡ false) (==-sound handoff.id id same) kept)
          (get_entry-set_entry handoff id rest ∙ if_true _ _ same))
    | inr other ↦ rw kept (
        rw other (
          ap (λ found. if entry.id == id then some entry else found)
            (get_entry-set_entry handoff id rest ∙ if_false _ _ other)))
  ]
]

any-set_entry :
    (old handoff : JobIntakeHandoff) (store : Store)
    → (old.id == handoff.id) ≡ false
    → any (same_id old) store ≡ false
    → any (same_id old) (set_entry handoff store) ≡ false
unfolding set_entry
any-set_entry old handoff [] h k = rw h refl
any-set_entry old handoff (entry ∷ rest) h k =
    let (first, later) = or_false (same_id old entry) (any (same_id old) rest) k in
    elim (Bool-cases (entry.id == handoff.id)) [
      | inl replaced ↦ rw replaced (rw h later)
      | inr kept ↦ rw kept (rw first (any-set_entry old handoff rest h later))
    ]

pub no_two-set_entry :
    (handoff : JobIntakeHandoff) (store : Store)
    → no_two same_id store ≡ true
    → no_two same_id (set_entry handoff store) ≡ true
unfolding set_entry
no_two-set_entry handoff [] h = refl
no_two-set_entry handoff (entry ∷ rest) h =
    let (first, later) = and_true (not (any (same_id entry) rest)) (no_two same_id rest) h in
    elim (Bool-cases (entry.id == handoff.id)) [
      | inl replaced ↦ rw replaced (
          rw
            (subst (λ i. any (λ e. i == e.id) rest ≡ false) (==-sound entry.id handoff.id replaced)
              (not-true (any (same_id entry) rest) first))
            later)
      | inr kept ↦ rw kept (
          rw (any-set_entry entry handoff rest kept (not-true (any (same_id entry) rest) first))
            (no_two-set_entry handoff rest later))
    ]

pub get_entry-pop_entry :
    (gone id : ℕ) (store : Store)
    → get_entry id (pop_entry gone store) ≡ (if gone == id then none else get_entry id store)
get_entry-pop_entry gone id [] = elim (Bool-cases (gone == id)) [
  | inl e ↦ rw e refl
  | inr e ↦ rw e refl
]
get_entry-pop_entry gone id (entry ∷ rest) = elim (Bool-cases (entry.id == gone)) [
  | inl popped ↦ elim (Bool-cases (gone == id)) [
    | inl same ↦ rw popped (rw same (get_entry-pop_entry gone id rest ∙ if_true _ _ same))
    | inr other ↦ rw popped (
        rw (other, ap (λ i. i == id) (==-sound entry.id gone popped) ∙ other)
          (get_entry-pop_entry gone id rest ∙ if_false _ _ other))
  ]
  | inr kept ↦ elim (Bool-cases (gone == id)) [
    | inl same ↦ rw kept (
        rw (same, subst (λ i. (entry.id == i) ≡ false) (==-sound gone id same) kept)
          (get_entry-pop_entry gone id rest ∙ if_true _ _ same))
    | inr other ↦ rw kept (
        rw other (
          ap (λ found. if entry.id == id then some entry else found)
            (get_entry-pop_entry gone id rest ∙ if_false _ _ other)))
  ]
]
