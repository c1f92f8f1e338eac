-- ===== src/Common/Pairs.antt =====
-- Lists no two of whose elements stand in a relation.
use mathlib.Core.Path.{◌≡◌, refl}
use mathlib.Core.Bool.{Bool, true, false, not, ◌&&◌, ◌||◌}
use mathlib.Core.List.{List, [], ◌∷◌, ◌++◌}
use native.Mathlib.Omega.{arith}
use mathlib.Core.Logic.{inl, inr}
use ai_career_os.Common.Lists.{any}
use ai_career_os.Common.Tests.{Bool-cases}

pub not-true : (b : Bool) → not b ≡ true → b ≡ false
not-true false h = refl
not-true true h = absurd cc

pub and_true : (a b : Bool) → (a && b) ≡ true → (a ≡ true) × (b ≡ true)
and_true true true h = (refl, refl)
and_true true false h = absurd cc
and_true false b h = absurd cc

pub or_false : (a b : Bool) → (a || b) ≡ false → (a ≡ false) × (b ≡ false)
or_false false false h = (refl, refl)
or_false true b h = absurd cc
or_false false true h = absurd cc

module _ {ℓ} {A : Type ℓ} where
  pub any-last :
      (p : A → Bool) (xs : List A) (x : A)
      → any p xs ≡ false
      → p x ≡ false
      → any p (xs ++ (x ∷ [])) ≡ false
  any-last p [] x h k = rw k refl
  any-last p (y ∷ xs) x h k =
      let (first, later) = or_false (p y) (any p xs) h in rw first (any-last p xs x later k)

  -- no element is related to a later one
  abbrev pub no_two : (A → A → Bool) → List A → Bool
  no_two r [] = true
  no_two r (x ∷ xs) = not (any (r x) xs) && no_two r xs

  pub no_two-last :
      (r : A → A → Bool) (xs : List A) (x : A)
      → no_two r xs ≡ true
      → any (λ y. r y x) xs ≡ false
      → no_two r (xs ++ (x ∷ [])) ≡ true
  no_two-last r [] x h k = refl
  no_two-last r (y ∷ xs) x h k =
      let (first, later) = and_true (not (any (r y) xs)) (no_two r xs) h in
      let (apart, rest) = or_false (r y x) _ k in
      rw (any-last (r y) xs x (not-true (any (r y) xs) first) apart) (no_two-last r xs x later rest)

  pub any-append-last :
      (p : A → Bool) (xs : List A) (x : A) → p x ≡ true → any p (xs ++ (x ∷ [])) ≡ true
  any-append-last p [] x h = rw h refl
  any-append-last p (y ∷ xs) x h = ground (arith, any-append-last p xs x h)

  pub no_two-related :
      (r : A → A → Bool) (xs : List A) (x : A)
      → any (λ y. r y x) xs ≡ true
      → no_two r (xs ++ (x ∷ [])) ≡ false
  no_two-related r [] x h = absurd cc
  no_two-related r (y ∷ xs) x h = elim (Bool-cases (r y x)) [
    | inl e ↦ rw (any-append-last (r y) xs x e) refl
    | inr e ↦ ground (arith, no_two-related r xs x (ground (arith, h, e)))
  ]
