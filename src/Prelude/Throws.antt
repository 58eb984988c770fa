-- ===== src/Prelude/Throws.antt =====
-- Thrown errors as values. `JsError` has the errors that the program throws or tells apart.
use Prim.Native.Nat.{ℕ}
use Prim.Native.String.{String}
use mathlib.Core.Path.{◌≡◌, refl}
use mathlib.Core.Logic.{◌⊎◌, inl, inr}

pub data JsError : Type 0 where
  error : (message : String) → JsError
  app_error : (code : String) (status_code : ℕ) (message : String) → JsError
  retryable_job_error : (code message : String) → JsError
  terminal_job_error : (code message : String) → JsError
  -- a thrown value that is no `Error`
  other : JsError

-- What a computation that may throw gives back.
pub data Outcome {ℓ} (A : Type ℓ) : Type ℓ where
  throw : JsError → Outcome A
  ok : A → Outcome A

-- What comes after a statement that may throw.
module _ {ℓ κ} {A : Type ℓ} {B : Type κ} where
  infixl 5 ◌>>=◌
  abbrev pub ◌>>=◌ : (before : Outcome A) (next : A → Outcome B) → Outcome B
  throw e >>= next = throw e
  ok value >>= next = next value

pub Outcome-cases {ℓ} :
    {A : Type ℓ} (o : Outcome A) → ((a : A) × (o ≡ ok a)) ⊎ ((e : JsError) × (o ≡ throw e))
Outcome-cases (ok a) = inl (a, refl)
Outcome-cases (throw e) = inr (e, refl)

-- What is run after a statement gives a result only if both give one.
pub bind-ok {ℓ κ} :
    {A : Type ℓ} {B : Type κ} (o : Outcome A) (next : A → Outcome B) {b : B}
    → o >>= next ≡ ok b
    → (a : A) × (o ≡ ok a) × (next a ≡ ok b)
bind-ok (ok a) next h = (a, refl, h)
bind-ok (throw e) next h = cc

pub ok-injective {ℓ} : {A : Type ℓ} {a b : A} → ok a ≡ ok b → a ≡ b
ok-injective h = cc
