-- ===== src/Certs/Issue.antt =====
-- The activities `IssueWildcardCert` and `PublishWildcardCert` with their helpers, and the workflow.
pub mod Published
pub mod Obtained
pub mod Account
pub mod Once
use nomad_temporal_jobs.Prelude.{
  ℕ, Bool, true, false, ◌||◌, Option, none, some, List, [], ◌∷◌, ◌++◌, if◌then◌else◌,
}
use nomad_temporal_jobs.Prelude.Result.{Result, Failure, non_retryable, external, ok, err}
use nomad_temporal_jobs.Prelude.Text.{Text, codes, is_empty}
use nomad_temporal_jobs.Prelude.Trace.{Run, pure, fail, within, continue, ◌>>=◌, ◌>>◌}
use nomad_temporal_jobs.Vault.{
  Fields, text_field, Kv, read_kv, read_kv_maybe, read_kv_field, write_kv,
}
use nomad_temporal_jobs.Certs.{
  Config, classified, Pair, AcmeCall, register, obtain, Issuer, AcmeUser, PersistedAccount, Lego,
  World, on_kv, on_acme, lift, two_fields, account_fields,
}

pub record IssueRequest : Type 0 where
  pub domains : List Text
  pub email : Text

module _ {S Key : Type 0} (kv : Kv S) (lego : Lego Key) (cfg : Config) where
  -- the account of the stored text, none for an empty one
  unfoldable pub parse_account : Text → Run (World S) (Option (AcmeUser Key))
  parse_account [] = pure none
  parse_account (c ∷ raw) =
      within "decode persisted acme account" (lift (lego.unmarshal (c ∷ raw))) >>= λ acc.
      within "parse acme account key" (lift (lego.parse_pem acc.key_pem)) >>= λ key.
      pure (some (record { email = acc.email; key = key; registration = acc.registration }))

  unfoldable pub stored_account : Option Fields → Run (World S) (Option (AcmeUser Key))
  unfolding parse_account
  stored_account none = pure none
  stored_account (some d) = parse_account (text_field d (codes "account"))

  unfoldable pub load_account : Run (World S) (Option (AcmeUser Key))
  unfolding stored_account
  load_account = on_kv (read_kv_maybe kv cfg.account_path) >>= stored_account

  unfoldable pub save_account : AcmeUser Key → Run (World S) (Unit {0})
  save_account user =
      within "encode acme account" (
        lift (
          lego.marshal (record {
            email = user.email;
            key_pem = lego.pem_encode user.key;
            registration = user.registration;
          })))
      >>= λ body. on_kv (write_kv kv cfg.account_path (account_fields body))

  -- the user, and whether it is new
  unfoldable pub user_or_new : Text → Option (AcmeUser Key) → Run (World S) (AcmeUser Key × Bool)
  user_or_new email (some user) = pure (user, false)
  user_or_new email none = within "generate acme account key" (lift lego.generate) >>= λ key.
      pure (record { email = email; key = key; registration = none }, true)

  unfoldable pub ensure_user : Text → Run (World S) (AcmeUser Key × Bool)
  unfolding load_account user_or_new
  ensure_user email = load_account >>= user_or_new email

  unfoldable pub new_lego_issuer : AcmeUser Key → Run (World S) Issuer
  new_lego_issuer user = within "create acme client" (lift (lego.new_client user)) >>= λ client.
      within "read cloudflare token" (on_kv (read_kv_field kv cfg.cf_token_path cfg.cf_token_field))
      >>= λ token. within "set dns-01 provider" (lift (lego.set_provider token client))

  unfoldable pub register_if : Bool → AcmeUser Key → Issuer → Run (World S) (Unit {0})
  unfolding save_account
  register_if false user issuer = pure tt
  register_if true user issuer =
      on_acme register (classified (codes "register acme account: ") issuer.answer_register)
      >>= λ reg. save_account (record user { registration = some reg })

  unfoldable pub obtain_pair : List Text → Issuer → Run (World S) Pair
  obtain_pair domains issuer =
      on_acme (obtain domains)
        (classified (codes "obtain certificate: ") (issuer.answer_obtain domains))

  unfoldable pub issue_wildcard_cert : IssueRequest → Run (World S) (Unit {0})
  unfolding ensure_user new_lego_issuer register_if obtain_pair
  issue_wildcard_cert req = ensure_user req.email >>= λ user. new_lego_issuer user.0 >>= λ issuer.
      register_if user.1 user.0 issuer
      >> (obtain_pair req.domains issuer >>= λ pair.
          on_kv (write_kv kv cfg.staging_path (two_fields pair)))

  -- `cert == "" || key == ""`
  unfoldable pub publish_pair : Pair → Run (World S) (Unit {0})
  publish_pair p =
      if is_empty p.cert || is_empty p.key
      then fail (non_retryable "StagedCertMissing")
      else within "publish cert" (on_kv (write_kv kv cfg.publish_path (two_fields p)))

  unfoldable pub publish_wildcard_cert : Run (World S) (Unit {0})
  unfolding publish_pair
  publish_wildcard_cert =
      within "read staged cert" (on_kv (read_kv kv cfg.staging_path)) >>= λ staged.
      publish_pair
        (record { cert = text_field staged (codes "cert"); key = text_field staged (codes "key") })

  -- `CertAcquirer`, each activity run once
  unfoldable pub cert_acquirer : IssueRequest → Run (World S) (Unit {0})
  unfolding issue_wildcard_cert publish_wildcard_cert
  cert_acquirer req = issue_wildcard_cert req >> publish_wildcard_cert
