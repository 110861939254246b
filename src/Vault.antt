-- ===== src/Vault.antt =====
-- The KV access of shared/client/vault/vault.go. Vault itself is a parameter: the calls `Get` and
-- `Put` over a state of their own, and what is stored in that state, with what the workers rely on.
pub mod Token
use nomad_temporal_jobs.Prelude.{◌≡◌, true, false, Option, none, some, List, [], ◌∷◌, if◌then◌else◌}
use nomad_temporal_jobs.Prelude.Result.{Result, external, ok, err, context, is_ok}
use nomad_temporal_jobs.Prelude.Text.{Text, text_eq}
use nomad_temporal_jobs.Prelude.Trace.{Run}

-- A value of a secret's field: text or anything else.
pub data Value : Type 0 where
  str : Text → Value
  other : Value

abbrev pub Fields : Type 0
Fields = List (Text × Value)

abbrev pub lookup : Fields → Text → Option Value
lookup [] k = none
lookup (f ∷ fs) k = let rest = lookup fs k in if text_eq f.0 k then some f.1 else rest

abbrev text_or_empty : Option Value → Text
text_or_empty (some (str t)) = t
text_or_empty (some other) = []
text_or_empty none = []

-- `s, _ := data[field].(string)`
abbrev pub text_field : Fields → Text → Text
text_field fs k = text_or_empty (lookup fs k)

-- `Get` and `Put` of a mount. `get` answers `none` for a path without a secret.
pub record Kv (S : Type 0) : Type 0 where
  pub get : Text → S → Result (Option Fields)
  pub put : Text → Fields → S → Result (Unit {0}) × S
  pub stored : S → Text → Option Fields

-- What is read is what is stored; a secret that was put is stored, whole, and no other path changes.
-- A put that fails may have stored its secret or not.
pub record IsKv {S : Type 0} (kv : Kv S) : Type 0 where
  pub get_stored : (p : Text) (s : S) (o : Option Fields) → kv.get p s ≡ ok o → kv.stored s p ≡ o
  pub put_stored :
      (p : Text) (d : Fields) (s : S)
      → is_ok ((kv.put p d s).0) ≡ true
      → kv.stored ((kv.put p d s).1) p ≡ some d
  pub put_apart :
      (p q : Text) (d : Fields) (s : S)
      → text_eq p q ≡ false
      → kv.stored ((kv.put p d s).1) q ≡ kv.stored s q

abbrev pub found_or_error : Option Fields → Result Fields
found_or_error none = err (external "secret not found")
found_or_error (some d) = ok d

abbrev pub present : Result (Option Fields) → Result Fields
present (err e) = err e
present (ok o) = found_or_error o

module _ {S : Type 0} (kv : Kv S) where
  unfoldable pub read_kv : Text → Run S Fields
  read_kv path s = (context "read" (present (kv.get path s)), s)

  unfoldable pub read_kv_maybe : Text → Run S (Option Fields)
  read_kv_maybe path s = (context "read" (kv.get path s), s)

  unfoldable pub write_kv : Text → Fields → Run S (Unit {0})
  write_kv path d s = let (r, s') = kv.put path d s in (context "write" r, s')

-- the field, when it is a string
abbrev string_value : Option Value → Result Text
string_value none = err (external "vault secret field missing")
string_value (some other) = err (external "vault secret field missing")
string_value (some (str t)) = ok t

abbrev string_field : Text → Result Fields → Result Text
string_field field (err e) = err e
string_field field (ok d) = string_value (lookup d field)

module _ {S : Type 0} (kv : Kv S) where
  unfoldable pub read_kv_field : Text → Text → Run S Text
  unfolding read_kv
  read_kv_field path field s = let (r, s') = read_kv kv path s in (string_field field r, s')
