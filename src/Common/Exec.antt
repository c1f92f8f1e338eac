-- ===== src/Common/Exec.antt =====
-- Python's exceptions as values, and a computation with state: what was written stays written
-- when an exception is raised.
use Prim.Native.Nat.{ℕ}
use Prim.Native.String.{String}
use mathlib.Core.Path.{◌≡◌, refl, ap}
use mathlib.Core.Bool.{Bool, true, false}

-- The exceptions that the program tells apart, each with its message; `other` is any other one.
pub data Exception : Type 0 where
  llm_configuration : String → Exception
  llm_error : String → Exception
  value_error : String → Exception
  board_not_found : String → Exception
  ats_error : String → Exception
  integrity_error : String → Exception
  -- `PostingAlreadyPromotedError`, with its `job_id`
  already_promoted : ℕ → Exception
  search_error : String → Exception
  -- `HTTPException`, with its status code
  http_exception : ℕ → String → Exception
  other : String → Exception

-- `str(exc)`
abbrev pub message : Exception → String
message (llm_configuration m) = m
message (llm_error m) = m
message (value_error m) = m
message (board_not_found m) = m
message (ats_error m) = m
message (integrity_error m) = m
message (already_promoted job_id) = "This posting is already in your pipeline"
message (search_error m) = m
message (http_exception status_code m) = m
message (other m) = m

-- `except LLMError`, of which `LLMConfigurationError` is a subclass
abbrev pub is_llm_error : Exception → Bool
is_llm_error (llm_configuration m) = true
is_llm_error (llm_error m) = true
is_llm_error _ = false

-- `except (LLMError, ValueError)`
abbrev pub is_llm_or_value_error : Exception → Bool
is_llm_or_value_error (llm_configuration m) = true
is_llm_or_value_error (llm_error m) = true
is_llm_or_value_error (value_error m) = true
is_llm_or_value_error _ = false

pub data Result {ℓ} (A : Type ℓ) : Type ℓ where
  ok : A → Result A
  err : Exception → Result A

abbrev pub Exec {ℓ} : Type ℓ → Type ℓ → Type ℓ
Exec S A = S → Result A × S

module _ {ℓ} {S A : Type ℓ} where
  abbrev pub pure : A → Exec S A
  pure a s = (ok a, s)

  abbrev pub raise : Exception → Exec S A
  raise e s = (err e, s)

  abbrev pub lift : Result A → Exec S A
  lift r s = (r, s)

  abbrev pub gets : (S → A) → Exec S A
  gets f s = (ok (f s), s)

module _ {ℓ} {S : Type ℓ} where
  abbrev pub modify : (S → S) → Exec S (Unit {ℓ})
  modify f s = (ok tt, f s)

infixl 5 ◌>>=◌ ◌>>◌
abbrev pub ◌>>=◌ {ℓ} : {S A B : Type ℓ} → Exec S A → (A → Exec S B) → Exec S B
◌>>=◌ m f s = let (r, s') = m s in elim r [ ok a ↦ f a s' | err e ↦ (err e, s') ]

abbrev pub ◌>>◌ {ℓ} : {S A B : Type ℓ} → Exec S A → Exec S B → Exec S B
m >> k = m >>= λ _. k

module _ {ℓ} {S A B : Type ℓ} where
  pub >>=-ok :
      (m : Exec S A) (f : A → Exec S B) (s : S) {a : A} {s' : S}
      → m s ≡ (ok a, s')
      → (m >>= f) s ≡ f a s'
  >>=-ok m f s e =
      ap (λ (out : Result A × S). elim out.0 [ ok a ↦ f a out.1 | err x ↦ (err x, out.1) ]) e

  pub >>=-err :
      (m : Exec S A) (f : A → Exec S B) (s : S) {x : Exception} {s' : S}
      → m s ≡ (err x, s')
      → (m >>= f) s ≡ (err x, s')
  >>=-err m f s e =
      ap (λ (out : Result A × S). elim out.0 [ ok a ↦ f a out.1 | err x ↦ (err x, out.1) ]) e

-- What holds of the value and the state when a computation returns, and of the state when it
-- raises.
module _ {ℓ κ} {S A : Type ℓ} where
  abbrev pub Post : (A → S → Type κ) → (S → Type κ) → Result A × S → Type κ
  Post Q E (ok a, s) = Q a s
  Post Q E (err e, s) = E s

  pub Post-mono :
      (Q Q' : A → S → Type κ) (E E' : S → Type κ) (run : Result A × S)
      → ((a : A) (s : S) → Q a s → Q' a s)
      → ((s : S) → E s → E' s)
      → Post Q E run
      → Post Q' E' run
  Post-mono Q Q' E E' (ok a, s) f g h = f a s h
  Post-mono Q Q' E E' (err e, s) f g h = g s h

module _ {ℓ κ} {S A B : Type ℓ} (Q : A → S → Type κ) (R : B → S → Type κ) (E : S → Type κ) where
  after :
      (f : A → Exec S B) (run : Result A × S)
      → Post Q E run
      → ((a : A) (s : S) → Q a s → Post R E (f a s))
      → Post R E (elim run.0 [ ok a ↦ f a run.1 | err e ↦ (err e, run.1) ])
  after f (ok a, s) h k = k a s h
  after f (err e, s) h k = h

  pub Post->>= :
      (m : Exec S A) (f : A → Exec S B) (s : S)
      → Post Q E (m s)
      → ((a : A) (s' : S) → Q a s' → Post R E (f a s'))
      → Post R E ((m >>= f) s)
  Post->>= m f s h k = after f (m s) h k

module _ {ℓ κ} {S A : Type ℓ} (Q : A → S → Type κ) (E : S → Type κ) where
  pub lift-Post : (r : Result A) (s : S) → ((a : A) → r ≡ ok a → Q a s) → E s → Post Q E (lift r s)
  lift-Post (ok a) s h k = h a refl
  lift-Post (err e) s h k = k
