-- ===== src/Tracker/Handoff/Live.antt =====
-- How long a handoff is kept: app/services/job_intake_handoff.py.
use ai_career_os.Common.{
  ℕ, ◌+◌, ◌≤◌, ◌≡◌, refl, sym, ap, subst, ◌∙◌, true, false, not, Option, none, some, [], ◌∷◌, ltb,
  ◌==◌, all, arith, Bool-cases, inl, inr, if_true, if_false,
}
use ai_career_os.Common.Exec.{ok}
use ai_career_os.Tracker.Lookup.{find_row-key}
use ai_career_os.Tracker.Handoff.{
  JobIntakeHandoff, Store, handoff_ttl, is_expired, purge_expired, set_entry, get_entry,
  create_handoff, answer_of, get_handoff, or_gone, read_job_intake_handoff,
}

in_time : (now t : ℕ) → now ≤ t → ltb t now ≡ false
in_time now t h = ground (arith, h)

of_time : (now t : ℕ) → ltb t now ≡ false → now ≤ t
of_time now t h = ground (arith, h)

==-refl : (a : ℕ) → (a == a) ≡ true
==-refl a = ground arith

-- an entry that was set and is not expired outlives a purge
get_entry-set :
    (now : ℕ) (handoff : JobIntakeHandoff) (store : Store)
    → is_expired now handoff ≡ false
    → get_entry handoff.id (purge_expired now (set_entry handoff store)) ≡ some handoff
unfolding set_entry
get_entry-set now handoff [] live = rw live (if_true _ _ (==-refl handoff.id))
get_entry-set now handoff (entry ∷ rest) live = elim (Bool-cases (entry.id == handoff.id)) [
  | inl same ↦ rw same (rw live (if_true _ _ (==-refl handoff.id)))
  | inr other ↦ elim (Bool-cases (is_expired now entry)) [
    | inl gone ↦ rw other (rw gone (get_entry-set now handoff rest live))
    | inr kept ↦ rw other (rw kept (if_false _ _ other ∙ get_entry-set now handoff rest live))
  ]
]

-- A handoff that was created is read back at any time up to half an hour later, with the clock
-- read twice, whatever the store held before and whenever it was purged.
pub read_job_intake_handoff-create :
    (purged_at read_at now : ℕ) (handoff : JobIntakeHandoff) (store : Store)
    → read_at ≤ handoff.created_at + handoff_ttl
    → now ≤ handoff.created_at + handoff_ttl
    → (read_job_intake_handoff read_at now handoff.id (create_handoff purged_at handoff store).1).0
      ≡ ok handoff
unfolding read_job_intake_handoff get_handoff create_handoff
read_job_intake_handoff-create purged_at read_at now handoff store h k =
    ap (λ (found : Option JobIntakeHandoff). (or_gone (answer_of now handoff.id found left)).0)
      (get_entry-set read_at handoff (purge_expired purged_at store) (in_time _ _ h))
    ∙ ap (λ (out : Option JobIntakeHandoff × Store). (or_gone out).0) (if_false _ _ (in_time _ _ k))
  where
    left : Store
    left = purge_expired read_at (set_entry handoff (purge_expired purged_at store))

purge_expired-live :
    (now : ℕ) (store : Store)
    → all (λ entry. not (is_expired now entry)) (purge_expired now store) ≡ true
purge_expired-live now [] = refl
purge_expired-live now (entry ∷ store) = elim (Bool-cases (is_expired now entry)) [
  | inl gone ↦ rw gone (purge_expired-live now store)
  | inr kept ↦ rw kept (rw kept (purge_expired-live now store))
]

-- What a look-up answers was created for that id at most half an hour before it.
pub get_handoff-live :
    (purged_at now id : ℕ) (store : Store) (handoff : JobIntakeHandoff)
    → (get_handoff purged_at now id store).0 ≡ some handoff
    → (handoff.id ≡ id) × (now ≤ handoff.created_at + handoff_ttl)
unfolding get_handoff
get_handoff-live purged_at now id store handoff h = answered (get_entry id left) refl h
  where
    left : Store
    left = purge_expired purged_at store

    some-injective : {a b : JobIntakeHandoff} → some a ≡ some b → a ≡ b
    some-injective e = cc

    answered :
        (found : Option JobIntakeHandoff)
        → get_entry id left ≡ found
        → (answer_of now id found left).0 ≡ some handoff
        → (handoff.id ≡ id) × (now ≤ handoff.created_at + handoff_ttl)
    answered none e h = absurd cc
    answered (some entry) e h = elim (Bool-cases (is_expired now entry)) [
      | inl gone ↦
          let bad : none ≡ some handoff =
            sym (ap (λ (out : Option JobIntakeHandoff × Store). out.0) (if_true _ _ gone)) ∙ h in
          absurd cc
      | inr kept ↦
          subst (λ entry. (entry.id ≡ id) × (now ≤ entry.created_at + handoff_ttl))
            (some-injective
              (sym (ap (λ (out : Option JobIntakeHandoff × Store). out.0) (if_false _ _ kept)) ∙ h))
            (find_row-key (λ (row : JobIntakeHandoff). row.id) id entry left e, of_time _ _ kept)
    ]
