-- ===== src/Prelude/Trace.antt =====
-- Code that changes a state and may fail: the result beside the new state, which a failure keeps.
-- A log of the calls made, oldest first, is such a state.
use Prim.Native.String.{String}
use mathlib.Core.Path.{◌≡◌, refl}
use mathlib.Core.Bool.{true}
use mathlib.Core.List.{List, [], ◌∷◌, ◌++◌}
use native.Mathlib.Omega.{arith}
use nomad_temporal_jobs.Prelude.Result.{Result, Failure, ok, err, both, context, is_ok}

abbrev pub Run {ℓ} : Type ℓ → Type ℓ → Type ℓ
Run S A = S → Result A × S

module _ {ℓ} {S A : Type ℓ} where
  abbrev pub pure : A → Run S A
  pure a s = (ok a, s)

  abbrev pub fail : Failure → Run S A
  fail e s = (err e, s)

  -- the error is wrapped
  abbrev pub within : String → Run S A → Run S A
  within text m s = let (r, s') = m s in (context text r, s')

module _ {ℓ} {C A : Type ℓ} where
  -- one call, with the answer that it gets
  abbrev pub call : C → Result A → Run (List C) A
  call c r log = (r, log ++ (c ∷ []))

module _ {ℓ} {S A B : Type ℓ} where
  abbrev pub continue : Result A → (A → Run S B) → Run S B
  continue (ok a) f s = f a s
  continue (err e) f s = (err e, s)

  infixl 5 ◌>>=◌ ◌>>◌
  abbrev pub ◌>>=◌ : Run S A → (A → Run S B) → Run S B
  ◌>>=◌ m f s = let (r, s') = m s in continue r f s'

  abbrev pub ◌>>◌ : Run S A → Run S B → Run S B
  m >> k = m >>= λ _. k

  -- the answer is only logged
  abbrev pub ignore : Run S A → (Result A → Run S B) → Run S B
  ignore m f s = let (r, s') = m s in f r s'

  -- A chain that ends well went through both parts.
  continue_inv :
      (r : Result A) (f : A → Run S B) (s : S)
      → is_ok ((continue r f s).0) ≡ true
      → (a : A) × (r ≡ ok a) × (is_ok ((f a s).0) ≡ true) × (continue r f s ≡ f a s)
  continue_inv (ok a) f s h = (a, refl, h, refl)
  continue_inv (err e) f s h = ground (arith, h)

  pub bind_inv :
      (m : Run S A) (f : A → Run S B) (s : S)
      → is_ok (((m >>= f) s).0) ≡ true
      → (a : A) × ((m s).0 ≡ ok a) × (is_ok ((f a (m s).1).0) ≡ true) × ((m >>= f) s ≡ f a (m s).1)
  bind_inv m f s h = continue_inv (m s).0 f (m s).1 h

  continue_ok :
      (r : Result A) (f : A → Run S B) (s : S) (b : B)
      → (continue r f s).0 ≡ ok b
      → (a : A) × (r ≡ ok a) × ((f a s).0 ≡ ok b)
  continue_ok (ok a) f s b h = (a, refl, h)
  continue_ok (err e) f s b h = ground (arith, h)

  pub bind_ok :
      (m : Run S A) (f : A → Run S B) (s : S) (b : B)
      → ((m >>= f) s).0 ≡ ok b
      → (a : A) × ((m s).0 ≡ ok a) × ((f a (m s).1).0 ≡ ok b)
  bind_ok m f s b h = continue_ok (m s).0 f (m s).1 b h

  -- What the first part establishes and the second keeps holds behind the chain.
  continue_keeps {κ} :
      (P : S → Type κ) (r : Result A) (f : A → Run S B) (s : S)
      → P s
      → ((a : A) → r ≡ ok a → P (f a s).1)
      → P (continue r f s).1
  continue_keeps P (ok a) f s p h = h a refl
  continue_keeps P (err e) f s p h = p

  pub bind_keeps {κ} :
      (P : S → Type κ) (m : Run S A) (f : A → Run S B) (s : S)
      → P (m s).1
      → ((a : A) → (m s).0 ≡ ok a → P (f a (m s).1).1)
      → P ((m >>= f) s).1
  bind_keeps P m f s p h = continue_keeps P (m s).0 f (m s).1 p h

-- `errors.Join` in a deferred function: its error joins that of the body.
abbrev pub join_errors {ℓ} : {A B : Type ℓ} → Result A → Result B → Result A
join_errors (ok a) (ok b) = ok a
join_errors (ok a) (err e) = err e
join_errors (err d) (ok b) = err d
join_errors (err d) (err e) = err (both d e)

module _ {ℓ} {S A B : Type ℓ} where
  -- `defer`: `after` runs however `m` ends.
  abbrev pub deferred : Run S B → Run S A → Run S A
  deferred after m s = let (r, s') = m s in let (q, s'') = after s' in (join_errors r q, s'')
