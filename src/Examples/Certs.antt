-- ===== src/Examples/Certs.antt =====
-- Certificates issued and published against a Vault that is a function, with one account's coding.
use nomad_temporal_jobs.Prelude.{
  ◌≡◌, refl, ap, Bool, true, false, ◌&&◌, Option, none, some, [], ◌∷◌, arith, if◌then◌else◌,
}
use nomad_temporal_jobs.Prelude.Result.{Result, external, ok, err, is_ok}
use nomad_temporal_jobs.Prelude.Text.{Text, codes, text_eq, text_eq_iff, text_eq_refl, is_empty}
use nomad_temporal_jobs.Vault.{
  str, Fields, Kv, IsKv, read_kv, read_kv_maybe, read_kv_field, write_kv,
}
use nomad_temporal_jobs.Certs.{
  Config, Pair, granted, Issuer, PersistedAccount, Lego, World, classified, two_fields,
}
use nomad_temporal_jobs.Certs.Issue.{
  IssueRequest, stored_account, load_account, save_account, user_or_new, ensure_user,
  new_lego_issuer, register_if, obtain_pair, issue_wildcard_cert, publish_pair,
  publish_wildcard_cert, cert_acquirer,
}
use nomad_temporal_jobs.Certs.Issue.Obtained.{IsObtained, cert_acquirer_publishes}
use nomad_temporal_jobs.Certs.Issue.Account.{IsCodec}
use nomad_temporal_jobs.Certs.Issue.Once.{registrations, issue_wildcard_cert_registers_once}

abbrev Secrets : Type 0
Secrets = Text → Option Fields

abbrev kv : Kv Secrets
kv = record {
  get = λ p s. ok (s p);
  put = λ p d s. (ok tt, λ q. if text_eq p q then some d else s q);
  stored = λ s p. s p;
}

abbrev or_given : Option Fields → Result (Option Fields) → Option Fields
or_given d (ok a) = a
or_given d (err e) = d

read_back : (a b : Option Fields) → (ok a) ≡ (ok b) → a ≡ b
read_back a b h = ap (or_given a) h

kv-IsKv : IsKv kv
kv-IsKv = record {
  get_stored = λ p s o h. read_back (s p) o h;
  put_stored = λ p d s h. ap (λ b. if b then some d else s p) (text_eq_refl p);
  put_apart = λ p q d s h. ap (λ b. if b then some d else s q) h;
}

abbrev email : Text
email = codes "ops@x"

abbrev pem : Text
pem = codes "PEM"

abbrev reg : Text
reg = codes "reg"

abbrev account : PersistedAccount
account = record { email = email; key_pem = pem; registration = some reg }

abbrev is_registered : Option Text → Bool
is_registered none = false
is_registered (some r) = text_eq r reg

abbrev issuer : Issuer
issuer = record {
  answer_register = granted reg;
  answer_obtain = λ domains. granted (record { cert = codes "C"; key = codes "K" });
}

-- Only this account has a coding, and there is one key.
abbrev marshalled : PersistedAccount → Result Text
marshalled acc =
    if text_eq acc.email email && (text_eq acc.key_pem pem && is_registered acc.registration)
    then ok (codes "A")
    else err (external "marshal")

abbrev lego : Lego (Unit {0})
lego = record {
  marshal = marshalled;
  unmarshal = λ body. ok account;
  pem_encode = λ k. pem;
  parse_pem = λ t. ok tt;
  generate = ok tt;
  new_client = λ user. ok issuer;
  set_provider = λ token client. ok client;
}

registered : (r : Option Text) → is_registered r ≡ true → r ≡ some reg
registered none h = ground (arith, h)
registered (some t) h = ap some ((text_eq_iff t reg).0 h)

only_account :
    (acc : PersistedAccount) (body : Text)
    → marshalled acc ≡ ok body
    → (is_empty body ≡ false) × (lego.unmarshal body ≡ ok acc)
unfolding is_empty
only_account acc body h = ground (
  arith,
  h,
  text_eq_iff acc.email email,
  text_eq_iff acc.key_pem pem,
  registered acc.registration,
)

lego-IsCodec : IsCodec lego
lego-IsCodec = record { unmarshal_marshal = only_account; parse_encode = λ k. refl }

abbrev cfg : Config
cfg = record {
  cf_token_path = codes "cf";
  cf_token_field = codes "t";
  account_path = codes "a";
  staging_path = codes "s";
  publish_path = codes "p";
}

abbrev start : World Secrets
start = record {
  kv = λ p. if text_eq p (codes "cf") then some ((codes "t", str (codes "token")) ∷ []) else none;
  calls = [];
}

abbrev request : IssueRequest
request = record { domains = codes "*.x" ∷ []; email = email }

runs : is_ok ((cert_acquirer kv lego cfg request start).0) ≡ true
unfolding cert_acquirer issue_wildcard_cert publish_wildcard_cert ensure_user load_account
    stored_account user_or_new new_lego_issuer register_if save_account obtain_pair publish_pair
    read_kv read_kv_maybe write_kv read_kv_field text_eq is_empty classified
runs = refl

issues : is_ok ((issue_wildcard_cert kv lego cfg request start).0) ≡ true
unfolding issue_wildcard_cert ensure_user load_account stored_account user_or_new new_lego_issuer
    register_if save_account obtain_pair read_kv read_kv_maybe write_kv read_kv_field text_eq
    classified
issues = refl

cert_acquirer_publishes_example :
    (p : Pair) × IsObtained kv lego cfg kv-IsKv (codes "*.x" ∷ []) p
    × (is_empty p.cert ≡ false)
    × (is_empty p.key ≡ false)
    × (kv.stored (cert_acquirer kv lego cfg request start).1.kv (codes "p") ≡ some (two_fields p))
cert_acquirer_publishes_example = cert_acquirer_publishes kv lego cfg kv-IsKv request start runs

abbrev issued : World Secrets
issued = (issue_wildcard_cert kv lego cfg request start).1

a_is_not_s : text_eq (codes "s") (codes "a") ≡ false
unfolding text_eq
a_is_not_s = refl

issue_wildcard_cert_registers_once_example :
    registrations (issue_wildcard_cert kv lego cfg request issued).1 ≡ registrations issued
issue_wildcard_cert_registers_once_example =
    issue_wildcard_cert_registers_once kv lego cfg kv-IsKv lego-IsCodec request request start issued
      a_is_not_s issues refl
