-- ===== src/Certs.antt =====
-- The certificate acquirer: certacquirer/activities/activities.go and
-- certacquirer/workflows/cert_acquirer.go. Vault, the coding of the account, the keys and the ACME
-- issuer are parameters; the state is Vault's and the calls to the ACME server so far.
pub mod Issue
use nomad_temporal_jobs.Prelude.{
  ℕ, Bool, true, false, ◌||◌, Option, none, some, List, [], ◌∷◌, ◌++◌, if◌then◌else◌,
}
use nomad_temporal_jobs.Prelude.Result.{Result, Failure, non_retryable, external, ok, err}
use nomad_temporal_jobs.Prelude.Text.{Text, codes, text_eq, to_lower, has_substring, is_empty}
use nomad_temporal_jobs.Prelude.Trace.{Run, pure, fail, within, continue, ◌>>=◌, ◌>>◌}
use nomad_temporal_jobs.Vault.{
  str, Fields, text_field, Kv, read_kv, read_kv_maybe, read_kv_field, write_kv,
}

pub record Config : Type 0 where
  pub cf_token_path : Text
  pub cf_token_field : Text
  pub account_path : Text
  pub staging_path : Text
  pub publish_path : Text

abbrev or_default : Text → Text → Text
or_default t d = if is_empty t then d else t

-- the defaults of `New`; the address of the CA is left to lego
unfoldable pub new : Config → Config
new cfg = record {
  cf_token_path = or_default cfg.cf_token_path (codes "cloudflare-wandns");
  cf_token_field = or_default cfg.cf_token_field (codes "api_token");
  account_path = or_default cfg.account_path (codes "traefik/acme-account");
  staging_path = or_default cfg.staging_path (codes "traefik/wildcard-staging");
  publish_path = or_default cfg.publish_path (codes "traefik/wildcard");
}

-- An ACME error, as `isRateLimit` sees it: the type of its problem document, when it has one, and
-- its message.
pub record AcmeError : Type 0 where
  pub problem : Option Text
  pub message : Text

has_limit_type : Option Text → Text → Bool
has_limit_type (some type) message = text_eq type (codes "urn:ietf:params:acme:error:rateLimited")
has_limit_type none message =
    let msg = to_lower message in
    has_substring msg (codes "ratelimited")
    || (has_substring msg (codes "rate limit") || has_substring msg (codes "too many"))

unfoldable pub is_rate_limit : AcmeError → Bool
unfolding has_limit_type
is_rate_limit e = has_limit_type e.problem e.message

-- of the error wrapped with a prefix, `fmt.Errorf("<prefix>: %w", err)`
unfoldable pub classify_acme : Text → AcmeError → Failure
classify_acme prefix e =
    if is_rate_limit (record e { message = prefix ++ e.message })
    then non_retryable "ACMERateLimited"
    else external "acme"

-- the answer of the ACME server
pub data Answer (A : Type 0) : Type 0 where
  granted : A → Answer A
  refused : AcmeError → Answer A

unfoldable pub classified : {A : Type 0} → Text → Answer A → Result A
unfolding classify_acme
classified prefix (granted a) = ok a
classified prefix (refused e) = err (classify_acme prefix e)

-- a certificate and its key, in PEM
pub record Pair : Type 0 where
  pub cert : Text
  pub key : Text

pub data AcmeCall : Type 0 where
  register : AcmeCall
  obtain : List Text → AcmeCall

pub record Issuer : Type 0 where
  pub answer_register : Answer Text
  pub answer_obtain : List Text → Answer Pair

-- The registration is `none` until the account is registered.
pub record AcmeUser (Key : Type 0) : Type 0 where
  pub email : Text
  pub key : Key
  pub registration : Option Text

pub record PersistedAccount : Type 0 where
  pub email : Text
  pub key_pem : Text
  pub registration : Option Text

-- The JSON of an account, the PEM of a key, and the lego client.
pub record Lego (Key : Type 0) : Type 0 where
  pub marshal : PersistedAccount → Result Text
  pub unmarshal : Text → Result PersistedAccount
  pub pem_encode : Key → Text
  pub parse_pem : Text → Result Key
  pub generate : Result Key
  pub new_client : AcmeUser Key → Result Issuer
  pub set_provider : Text → Issuer → Result Issuer

-- the state: Vault's, and the calls to the ACME server, oldest first
pub record World (S : Type 0) : Type 0 where
  pub kv : S
  pub calls : List AcmeCall

abbrev pub on_kv : {S A : Type 0} → Run S A → Run (World S) A
on_kv m w = let (r, k) = m w.kv in (r, record w { kv = k })

abbrev pub on_acme : {S A : Type 0} → AcmeCall → Result A → Run (World S) A
on_acme c r w = (r, record w { calls = w.calls ++ (c ∷ []) })

abbrev pub lift : {S A : Type 0} → Result A → Run S A
lift r s = (r, s)

-- Go's `string(pem)`, and a map of two text fields
abbrev pub two_fields : Pair → Fields
two_fields p = (codes "cert", str p.cert) ∷ (codes "key", str p.key) ∷ []

abbrev pub account_fields : Text → Fields
account_fields body = (codes "account", str body) ∷ []
