-- ===== src/Radar/Postings/Ids.antt =====
-- The primary and the unique key of the postings, through changes that keep every row's identity.
use ai_career_os.Common.{
  ℕ, ◌+◌, ◌≡◌, refl, ap, ◌∙◌, true, not, ◌&&◌, ◌||◌, List, [], ◌∷◌, ◌++◌, map, arith, ◌==◌, any,
  All,
}
use mathlib.Core.Path.{ap₂}
use ai_career_os.Radar.Model.{Posting}
use ai_career_os.Radar.Database.{Database, same_key, unique_keys}
use ai_career_os.Radar.Postings.Rows.{Keeps, Evolved, added, kept, AllBelow, distinct_ids}

-- every row keeps its decision under the change
abbrev pub KeepsAll : (Posting → Posting) → List Posting → Type 0
KeepsAll f = All (λ p. Keeps p (f p))

-- ids distinct, and below the next one
abbrev pub HasIds : Database → Type 0
HasIds db = (distinct_ids db.postings ≡ true) × AllBelow db.next_id db.postings

module _ (f : Posting → Posting) where
  pub KeepsAll-Evolved : (ps : List Posting) → KeepsAll f ps → Evolved ps (map f ps)
  KeepsAll-Evolved [] h = added [] tt
  KeepsAll-Evolved (p ∷ ps) h = kept h.0 (KeepsAll-Evolved ps h.1)

  pub map-AllBelow :
      (n : ℕ) (ps : List Posting) → KeepsAll f ps → AllBelow n ps → AllBelow n (map f ps)
  map-AllBelow n [] k h = tt
  map-AllBelow n (p ∷ ps) k h = (rw (k.0.same_id) h.0, map-AllBelow n ps k.1 h.1)

  map-any_id :
      (id : ℕ) (ps : List Posting)
      → KeepsAll f ps
      → any (λ q. q.id == id) (map f ps) ≡ any (λ q. q.id == id) ps
  map-any_id id [] k = refl
  map-any_id id (p ∷ ps) k = ap₂ (λ i b. i == id || b) k.0.same_id (map-any_id id ps k.1)

  pub map-distinct_ids :
      (ps : List Posting) → KeepsAll f ps → distinct_ids (map f ps) ≡ distinct_ids ps
  map-distinct_ids [] k = refl
  map-distinct_ids (p ∷ ps) k =
      ap₂ (λ a b. not a && b)
        (ap (λ i. any (λ q. q.id == i) (map f ps)) k.0.same_id ∙ map-any_id p.id ps k.1)
        (map-distinct_ids ps k.1)

  map-any_key :
      (p : Posting) (ps : List Posting)
      → Keeps p (f p)
      → KeepsAll f ps
      → any (same_key (f p)) (map f ps) ≡ any (same_key p) ps
  map-any_key p [] kp k = refl
  map-any_key p (q ∷ qs) kp k =
      rw (kp.same_company, kp.same_external_id, k.0.same_company, k.0.same_external_id)
        (ap (λ b. same_key p q || b) (map-any_key p qs kp k.1))

  pub unique_keys-map :
      (ps : List Posting) → KeepsAll f ps → unique_keys (map f ps) ≡ unique_keys ps
  unfolding unique_keys
  unique_keys-map [] k = refl
  unique_keys-map (p ∷ ps) k =
      ap₂ (λ a b. not a && b) (map-any_key p ps k.0 k.1) (unique_keys-map ps k.1)

pub AllBelow-suc : (n : ℕ) (ps : List Posting) → AllBelow n ps → AllBelow (n + 1) ps
AllBelow-suc n [] h = tt
AllBelow-suc n (p ∷ ps) h = (omega (arith, h.0), AllBelow-suc n ps h.1)

append-any_id :
    (id : ℕ) (new : Posting) (ps : List Posting)
    → any (λ q. q.id == id) (ps ++ new ∷ []) ≡ (any (λ q. q.id == id) ps || new.id == id)
append-any_id id new [] = ground arith
append-any_id id new (p ∷ ps) = ground (arith, append-any_id id new ps)

pub append-distinct_ids :
    (new : Posting) (ps : List Posting)
    → AllBelow new.id ps
    → distinct_ids ps ≡ true
    → distinct_ids (ps ++ new ∷ []) ≡ true
append-distinct_ids new [] below h = refl
append-distinct_ids new (p ∷ ps) below h =
    ground (arith, append-any_id p.id new ps, append-distinct_ids new ps below.1, below.0)
