-- ===== src/Tracker/Handoff/Refines.antt =====
-- The store of app/services/job_intake_handoff.py behind its two operations, against a map that
-- forgets nothing.
use mathlib.Core.Path.{ap₂}
use ai_career_os.Common.{
  ℕ, ◌≤◌, ◌≡◌, refl, sym, ap, ◌∙◌, true, Option, none, some, List, [], ◌∷◌, ◌==◌, arith, Bool-cases,
  inl, inr, if_true, if◌then◌else◌, no_two,
}
use ai_career_os.Tracker.Handoff.Entries.{
  same_id, live_at, no_two-filter, live_at-purge, get_entry-set_entry, no_two-set_entry,
  get_entry-pop_entry, still_expired,
}
use ai_career_os.Tracker.Handoff.{
  JobIntakeHandoff, Store, is_expired, purge_expired, get_entry, pop_entry, create_handoff,
  answer_of, get_handoff,
}

-- The specification: every handoff that was created, by its id.
abbrev pub Spec : Type 0
Spec = ℕ → Option JobIntakeHandoff

abbrev pub spec_create : JobIntakeHandoff → Spec → Spec
spec_create handoff spec id = if handoff.id == id then some handoff else spec id

-- a call, with the times that it reads from the clock
pub data Call : Type 0 where
  created : ℕ → JobIntakeHandoff → Call
  looked_up : ℕ → ℕ → ℕ → Call

-- the answers of the look-ups
unfoldable pub run : List Call → Store → List (Option JobIntakeHandoff)
run [] store = []
run (created purged_at handoff ∷ calls) store = run calls (create_handoff purged_at handoff store).1
run (looked_up purged_at now id ∷ calls) store =
    (get_handoff purged_at now id store).0 ∷ run calls (get_handoff purged_at now id store).1

unfoldable pub spec_run : List Call → Spec → List (Option JobIntakeHandoff)
spec_run [] spec = []
spec_run (created purged_at handoff ∷ calls) spec = spec_run calls (spec_create handoff spec)
spec_run (looked_up purged_at now id ∷ calls) spec = live_at now (spec id) ∷ spec_run calls spec

-- the clock does not go back
abbrev pub InOrder : ℕ → List Call → Type 0
InOrder t [] = Unit
InOrder t (created purged_at handoff ∷ calls) = (t ≤ purged_at) × InOrder purged_at calls
InOrder t (looked_up purged_at now id ∷ calls) =
    (t ≤ purged_at) × (purged_at ≤ now) × InOrder now calls

==-sound : (a b : ℕ) → (a == b) ≡ true → a ≡ b
==-sound a b h = ground (arith, h)

-- what a look-up at `t` or later can see is what the specification has
record Agrees (t : ℕ) (store : Store) (spec : Spec) : Type 0 where
  pub unique : no_two same_id store ≡ true
  pub seen : (now id : ℕ) → t ≤ now → live_at now (get_entry id store) ≡ live_at now (spec id)

purge-Agrees :
    (t p : ℕ) (store : Store) (spec : Spec)
    → t ≤ p
    → Agrees t store spec
    → Agrees p (purge_expired p store) spec
purge-Agrees t p store spec h agrees = record {
  unique = no_two-filter _ store agrees.unique;
  seen = λ now id k.
      live_at-purge p now id store k agrees.unique ∙ agrees.seen now id (omega (arith, h, k));
}

create-Agrees :
    (t p : ℕ) (handoff : JobIntakeHandoff) (store : Store) (spec : Spec)
    → t ≤ p
    → Agrees t store spec
    → Agrees p (create_handoff p handoff store).1 (spec_create handoff spec)
unfolding create_handoff
create-Agrees t p handoff store spec h agrees = record {
  unique = no_two-set_entry handoff (purge_expired p store) purged.unique;
  seen = λ now id k.
      ap (live_at now) (get_entry-set_entry handoff id (purge_expired p store))
      ∙ elim (Bool-cases (handoff.id == id)) [
        | inl same ↦ rw same refl
        | inr other ↦ rw other (purged.seen now id k)
      ];
}
  where
    purged : Agrees p (purge_expired p store) spec
    purged = purge-Agrees t p store spec h agrees

answer_of-live_at :
    (now id : ℕ) (found : Option JobIntakeHandoff) (store : Store)
    → (answer_of now id found store).0 ≡ live_at now found
answer_of-live_at now id none store = refl
answer_of-live_at now id (some entry) store = elim (Bool-cases (is_expired now entry)) [
  | inl gone ↦ rw gone refl
  | inr kept ↦ rw kept refl
]

later-Agrees :
    (t now : ℕ) (store : Store) (spec : Spec)
    → t ≤ now
    → Agrees t store spec
    → Agrees now store spec
later-Agrees t now store spec h agrees = record {
  unique = agrees.unique;
  seen = λ now' id k. agrees.seen now' id (omega (arith, h, k));
}

-- an entry that is expired can be taken away
pop-Agrees :
    (now id : ℕ) (entry : JobIntakeHandoff) (store : Store) (spec : Spec)
    → get_entry id store ≡ some entry
    → is_expired now entry ≡ true
    → Agrees now store spec
    → Agrees now (pop_entry id store) spec
pop-Agrees now id entry store spec found gone agrees = record {
  unique = no_two-filter _ store agrees.unique;
  seen = λ now' id' k.
      ap (live_at now') (get_entry-pop_entry id id' store) ∙ elim (Bool-cases (id == id')) [
        | inl same ↦ rw same (
            sym (if_true _ _ (still_expired now now' _ k gone))
            ∙ ap (live_at now') (sym found)
            ∙ ap (λ i. live_at now' (get_entry i store)) (==-sound id id' same)
            ∙ agrees.seen now' id' k)
        | inr other ↦ rw other (agrees.seen now' id' k)
      ];
}

answer_of-Agrees :
    (now id : ℕ) (store : Store) (spec : Spec)
    → Agrees now store spec
    → (found : Option JobIntakeHandoff) → get_entry id store ≡ found
    → Agrees now (answer_of now id found store).1 spec
answer_of-Agrees now id store spec agrees none e = agrees
answer_of-Agrees now id store spec agrees (some entry) e =
    elim (Bool-cases (is_expired now entry)) [
      | inl gone ↦ rw gone (pop-Agrees now id entry store spec e gone agrees)
      | inr kept ↦ rw kept agrees
    ]

run-Agrees :
    (t : ℕ) (calls : List Call) (store : Store) (spec : Spec)
    → InOrder t calls
    → Agrees t store spec
    → run calls store ≡ spec_run calls spec
unfolding run spec_run get_handoff
run-Agrees t [] store spec order agrees = refl
run-Agrees t (created purged_at handoff ∷ calls) store spec order agrees =
    run-Agrees purged_at calls _ (spec_create handoff spec) order.1
      (create-Agrees t purged_at handoff store spec order.0 agrees)
run-Agrees t (looked_up purged_at now id ∷ calls) store spec order agrees =
    let left = purge_expired purged_at store in
    let purged = purge-Agrees t purged_at store spec order.0 agrees in
    ap₂ (λ answer answers. answer ∷ answers)
      (answer_of-live_at now id (get_entry id left) left ∙ purged.seen now id order.1)
      (run-Agrees now calls _ spec order.2 (
        answer_of-Agrees now id left spec (later-Agrees purged_at now left spec order.1 purged)
          (get_entry id left) refl))

empty-Agrees : (t : ℕ) → Agrees t [] (λ id. none)
empty-Agrees t = record { unique = refl; seen = λ now id h. refl }

-- Whatever is created and looked up, one call after the other on a clock that does not go back, the
-- store that purges its entries answers as one that keeps every handoff by its id and hides what is
-- older than half an hour.
pub run-spec_run :
    (t : ℕ) (calls : List Call) → InOrder t calls → run calls [] ≡ spec_run calls (λ id. none)
run-spec_run t calls order = run-Agrees t calls [] (λ id. none) order (empty-Agrees t)
