-- ===== src/Tracker/Memory/Active.antt =====
-- Which career memories are active: `sync_career_memory_from_feedback` of
-- app/services/memory/context.py.
use Prim.Native.Char.{Char}
use Prim.Native.String.append
use Prim.Native.String.{◌++◌ as ◌+++◌}
use ai_career_os.Common.{
  ℕ, String, ◌≡◌, refl, sym, ap, subst, Bool, true, false, not, ◌&&◌, Option, none, some, List, [],
  ◌∷◌, ◌++◌, map, ◌==◌, str_eq, if◌then◌else◌, any, Bool-cases, inl, inr, eq_iff, no_two,
  no_two-last, not-true, and_true, or_false,
}
use ai_career_os.Tracker.Model.{FeedbackRow, MemoryRow, Session}
use ai_career_os.Tracker.Memory.{
  MemoryDraft, Texts, FeedbackEventType, gap_draft, strength_draft, preference_draft, outcome_draft,
  draft_of, is_superseded, supersede, new_memory, store_draft,
}

abbrev same_key : Option String → Option String → Bool
same_key key none = false
same_key key (some b) = elim key [ none ↦ false | some a ↦ str_eq a b ]

-- two memories of a profile with the same key, both active
abbrev pub clash : MemoryRow → MemoryRow → Bool
clash m n =
    m.active && (n.active && (m.profile_id == n.profile_id && same_key m.memory_key n.memory_key))

-- no two active memories of a profile have the same key
abbrev pub one_active : List MemoryRow → Bool
one_active = no_two clash

abbrev inactive : MemoryRow → MemoryRow
inactive row = record row { active = false }

clash-inactive : (m n : MemoryRow) → clash m (inactive n) ≡ false
clash-inactive m n = elim (Bool-cases m.active) [ inl e ↦ rw e refl | inr e ↦ rw e refl ]

and-rotate : (a b c : Bool) → ((b && c) && a) ≡ false → (a && (b && c)) ≡ false
and-rotate true true true h = absurd cc
and-rotate true true false h = refl
and-rotate true false c h = refl
and-rotate false b c h = refl

module _ (profile_id : ℕ) (key : String) where
  abbrev cleared : MemoryRow → MemoryRow
  cleared row = if is_superseded profile_id key row then inactive row else row

  clash-cleared : (m n : MemoryRow) → clash m n ≡ false → clash (cleared m) (cleared n) ≡ false
  clash-cleared m n h = elim (Bool-cases (is_superseded profile_id key m)) [
    | inl a ↦ rw a refl
    | inr a ↦ elim (Bool-cases (is_superseded profile_id key n)) [
      | inl b ↦ rw (a, b) (clash-inactive m n)
      | inr b ↦ rw (a, b) h
    ]
  ]

  any-cleared :
      (m : MemoryRow) (ms : List MemoryRow)
      → any (clash m) ms ≡ false
      → any (clash (cleared m)) (map cleared ms) ≡ false
  any-cleared m [] h = refl
  any-cleared m (n ∷ ms) h =
      let (first, later) = or_false (clash m n) _ h in
      rw (clash-cleared m n first) (any-cleared m ms later)

  one_active-cleared :
      (ms : List MemoryRow) → one_active ms ≡ true → one_active (map cleared ms) ≡ true
  one_active-cleared [] h = refl
  one_active-cleared (m ∷ ms) h =
      let (first, later) = and_true (not (any (clash m) ms)) (one_active ms) h in
      rw (any-cleared m ms (not-true (any (clash m) ms) first)) (one_active-cleared ms later)

  -- no row is in the way of a new one with the key
  clash-new :
      (new : MemoryRow)
      → new.active ≡ true
      → new.profile_id ≡ profile_id
      → new.memory_key ≡ some key
      → (row : MemoryRow) → clash (cleared row) new ≡ false
  clash-new new a p k row = elim (Bool-cases (is_superseded profile_id key row)) [
    | inl old ↦ rw old refl
    | inr other ↦ rw (other, a, p, k) (and-rotate row.active (row.profile_id == profile_id) _ other)
  ]

any-none :
    (f : MemoryRow → MemoryRow) (p : MemoryRow → Bool)
    → ((row : MemoryRow) → p (f row) ≡ false)
    → (rows : List MemoryRow) → any p (map f rows) ≡ false
any-none f p h [] = refl
any-none f p h (row ∷ rows) = rw (h row) (any-none f p h rows)

is_full : String → Bool
is_full String.[] = false
is_full (String.◌∷◌ c s) = true

cons-full : (c : Char) (s : String) → str_eq (String.◌∷◌ c s) "" ≡ false
unfolding is_full
cons-full c s = elim (Bool-cases (str_eq (String.◌∷◌ c s) "")) [
  | inl e ↦ let h : true ≡ false = ap is_full ((eq_iff (String.◌∷◌ c s) "").0 e) in absurd cc
  | inr e ↦ e
]

full-append : (a b : String) → str_eq a "" ≡ false → str_eq (a +++ b) "" ≡ false
full-append String.[] b h = absurd cc
full-append (String.◌∷◌ c a) b h =
    subst (λ s. str_eq s "" ≡ false) (sym (λ i. append.cons c a b i)) (cons-full c (a +++ b))

-- a draft has a key that is not empty
abbrev pub HasKey : Option MemoryDraft → Type 0
HasKey none = Unit
HasKey (some draft) = (key : String) × (draft.memory_key ≡ some key) × (str_eq key "" ≡ false)

module _ {F : Type 0} (py : Texts F) where
  guarded-HasKey :
      (b : Bool) (draft : MemoryDraft)
      → HasKey (some draft)
      → HasKey (if b then none else some draft)
  guarded-HasKey true draft h = tt
  guarded-HasKey false draft h = h

  pub draft_of-HasKey :
      (kind : FeedbackEventType) (event : FeedbackRow F) → HasKey (draft_of py kind event)
  unfolding draft_of gap_draft strength_draft preference_draft outcome_draft
  draft_of-HasKey FeedbackEventType.match_helpful event = tt
  draft_of-HasKey FeedbackEventType.gap_dispute event =
      guarded-HasKey _ _ (_, refl, full-append "gap" _ refl)
  draft_of-HasKey FeedbackEventType.strength_confirm event =
      guarded-HasKey _ _ (_, refl, full-append "strength" _ refl)
  draft_of-HasKey FeedbackEventType.preference event =
      guarded-HasKey _ _ (_, refl, full-append "pref" _ refl)
  draft_of-HasKey FeedbackEventType.application_outcome event =
      guarded-HasKey _ _ (_, refl, full-append "outcome" _ refl)

  pub store_draft-one_active :
      (event : FeedbackRow F) (draft : Option MemoryDraft) (s : Session F)
      → HasKey draft
      → one_active s.rows.memories ≡ true
      → one_active (store_draft py event draft s).rows.memories ≡ true
  unfolding store_draft supersede
  store_draft-one_active event none s h fresh = fresh
  store_draft-one_active event (some draft) s (key, found, full) fresh =
      subst
        (λ (k : Option String).
          one_active (
            supersede event.profile_id k s.rows.memories
            ++ (new_memory py s.rows.next_id event draft ∷ []))
          ≡ true)
        (sym found)
        (rw full (
          no_two-last clash (map (cleared event.profile_id key) s.rows.memories)
            (new_memory py s.rows.next_id event draft)
            (one_active-cleared event.profile_id key s.rows.memories fresh)
            (any-none (cleared event.profile_id key) _
              (clash-new event.profile_id key (new_memory py s.rows.next_id event draft) refl refl
                found)
              s.rows.memories)))
