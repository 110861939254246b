-- ===== src/Prelude/Result.antt =====
-- Errors as values. A Temporal application error that is not retryable carries its type; any other
-- error comes from outside. `wrap` is `fmt.Errorf` with `%w`, `both` is `errors.Join`.
use Prim.Native.String.{String}
use mathlib.Core.Path.{◌≡◌, refl}
use mathlib.Core.Logic.{◌⊎◌, inl, inr}
use mathlib.Core.Bool.{Bool, true, false}
use native.Mathlib.Omega.{arith}

pub data Failure : Type 0 where
  external : String → Failure
  non_retryable : String → Failure
  wrap : String → Failure → Failure
  both : Failure → Failure → Failure

pub data Result {ℓ} (A : Type ℓ) : Type ℓ where
  ok : A → Result A
  err : Failure → Result A

infixl 5 ◌>>=◌
abbrev pub ◌>>=◌ {ℓ κ} : {A : Type ℓ} {B : Type κ} → Result A → (A → Result B) → Result B
ok a >>= f = f a
err e >>= f = err e

-- `if err != nil { return fmt.Errorf("…: %w", err) }`
abbrev pub context {ℓ} : {A : Type ℓ} → String → Result A → Result A
context s (ok a) = ok a
context s (err e) = err (wrap s e)

abbrev pub is_ok {ℓ} : {A : Type ℓ} → Result A → Bool
is_ok (ok a) = true
is_ok (err e) = false

pub Result-cases {ℓ} :
    {A : Type ℓ} (r : Result A) → ((a : A) × (r ≡ ok a)) ⊎ ((e : Failure) × (r ≡ err e))
Result-cases (ok a) = inl (a, refl)
Result-cases (err e) = inr (e, refl)

module _ {A : Type 0} where
  pub context-ok : (text : String) (r : Result A) (a : A) → context text r ≡ ok a → r ≡ ok a
  context-ok text (ok b) a h = h
  context-ok text (err e) a h = ground (arith, h)

  pub is_ok-context :
      (text : String) (r : Result A) → is_ok (context text r) ≡ true → is_ok r ≡ true
  is_ok-context text (ok a) h = h
  is_ok-context text (err e) h = h

  -- A chain that ends well went through both parts.
  pub then_ok :
      {B : Type 0} (r : Result A) (f : A → Result B) (b : B)
      → (r >>= f) ≡ ok b
      → (a : A) × (r ≡ ok a) × (f a ≡ ok b)
  then_ok (ok a) f b h = (a, refl, h)
  then_ok (err e) f b h = ground (arith, h)

  pub ok_inj : (a b : A) → ok a ≡ ok b → a ≡ b
  ok_inj a b h = ground (arith, h)
