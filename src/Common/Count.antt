-- ===== src/Common/Count.antt =====
-- How many elements of a list pass a test. A list whose counts stay below those of another, for
-- every test, has only the other's elements, none of them more often.
use Prim.Native.Nat.{ℕ, ◌+◌, ◌≤◌}
use mathlib.Core.Path.{◌≡◌}
use mathlib.Core.Bool.{Bool}
use mathlib.Core.List.{List, [], ◌∷◌, ◌++◌}
use native.Mathlib.Omega.{arith}
use ai_career_os.Common.Tests.{if◌then◌else◌}
use ai_career_os.Common.Lists.{length, filter}

abbrev pub bit : Bool → ℕ
bit b = if b then 1 else 0

module _ {ℓ} {A : Type ℓ} where
  abbrev pub count_if : (A → Bool) → List A → ℕ
  count_if p [] = 0
  count_if p (x ∷ xs) = bit (p x) + count_if p xs

  -- `xs` holds only elements of `ys`, none more often than `ys` does
  abbrev pub Within : List A → List A → Type ℓ
  Within xs ys = (p : A → Bool) → count_if p xs ≤ count_if p ys

  pub count_if-append :
      (p : A → Bool) (xs ys : List A) → count_if p (xs ++ ys) ≡ count_if p xs + count_if p ys
  count_if-append p [] ys = omega arith
  count_if-append p (x ∷ xs) ys = omega (arith, count_if-append p xs ys)

  pub count_if-filter-le : (p q : A → Bool) (xs : List A) → count_if p (filter q xs) ≤ count_if p xs
  count_if-filter-le p q [] = omega arith
  count_if-filter-le p q (x ∷ xs) = ground (arith, count_if-filter-le p q xs)

  pub count_if-le-length : (p : A → Bool) (xs : List A) → count_if p xs ≤ length xs
  count_if-le-length p [] = omega arith
  count_if-le-length p (x ∷ xs) = ground (arith, count_if-le-length p xs)

  pub Within-refl : (xs : List A) → Within xs xs
  Within-refl xs p = omega arith

  pub Within-append :
      (xs ys us vs : List A) → Within xs us → Within ys vs → Within (xs ++ ys) (us ++ vs)
  Within-append xs ys us vs h k p =
      omega (arith, count_if-append p xs ys, count_if-append p us vs, h p, k p)
