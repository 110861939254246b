-- ===== src/Certs/Issue/Once.antt =====
-- Two issuances one after the other register at most one account.
use nomad_temporal_jobs.Prelude.{
  ℕ, ◌≡◌, refl, sym, ◌∙◌, subst, Bool, true, false, Option, none, some, [], ◌∷◌, count,
  count-append, arith,
}
use nomad_temporal_jobs.Prelude.Result.{ok, is_ok}
use nomad_temporal_jobs.Prelude.Text.{Text, text_eq, codes}
use nomad_temporal_jobs.Prelude.Trace.{Run, ◌>>=◌, bind_keeps}
use nomad_temporal_jobs.Vault.{
  Fields, text_field, Kv, IsKv, read_kv, read_kv_maybe, read_kv_field, write_kv,
}
use nomad_temporal_jobs.Certs.{
  Config, AcmeCall, register, obtain, Issuer, AcmeUser, Lego, World, on_kv, two_fields,
}
use nomad_temporal_jobs.Certs.Issue.{
  IssueRequest, parse_account, stored_account, load_account, user_or_new, ensure_user,
  new_lego_issuer, register_if, obtain_pair, issue_wildcard_cert,
}
use nomad_temporal_jobs.Certs.Issue.Account.{IsCodec, Loads, issue-HasAccount, ensure_user-old}

abbrev is_register : AcmeCall → Bool
is_register register = true
is_register (obtain domains) = false

-- how many accounts were registered
abbrev pub registrations : {S : Type 0} → World S → ℕ
registrations w = count is_register w.calls

module _ {S Key : Type 0} (kv : Kv S) (lego : Lego Key) (cfg : Config) where
  abbrev Quiet : {A : Type 0} → Run (World S) A → Type 0
  Quiet m = (w : World S) → registrations (m w).1 ≡ registrations w

  parse_account-Quiet : (raw : Text) → Quiet (parse_account kv lego cfg raw)
  unfolding parse_account
  parse_account-Quiet [] w = refl
  parse_account-Quiet (c ∷ raw) w = ground arith

  stored_account-Quiet : (o : Option Fields) → Quiet (stored_account kv lego cfg o)
  unfolding stored_account
  stored_account-Quiet none w = refl
  stored_account-Quiet (some d) w = parse_account-Quiet (text_field d (codes "account")) w

  load_account-Quiet : Quiet (load_account kv lego cfg)
  unfolding load_account read_kv_maybe
  load_account-Quiet w =
      bind_keeps (λ v. registrations v ≡ registrations w)
        (on_kv (read_kv_maybe kv cfg.account_path)) (stored_account kv lego cfg) w refl
        (λ o e. stored_account-Quiet o w)

  user_or_new-Quiet :
      (email : Text) (o : Option (AcmeUser Key)) → Quiet (user_or_new kv lego cfg email o)
  unfolding user_or_new
  user_or_new-Quiet email none w = ground arith
  user_or_new-Quiet email (some user) w = refl

  ensure_user-Quiet : (email : Text) → Quiet (ensure_user kv lego cfg email)
  unfolding ensure_user
  ensure_user-Quiet email w =
      bind_keeps (λ v. registrations v ≡ registrations w) (load_account kv lego cfg)
        (user_or_new kv lego cfg email) w (load_account-Quiet w)
        (λ o e. user_or_new-Quiet email o _ ∙ load_account-Quiet w)

  new_lego_issuer-Quiet : (user : AcmeUser Key) → Quiet (new_lego_issuer kv lego cfg user)
  unfolding new_lego_issuer read_kv_field read_kv
  new_lego_issuer-Quiet user w = ground arith

  obtained-Quiet :
      (req : IssueRequest) (issuer : Issuer)
      → Quiet (
          obtain_pair kv lego cfg req.domains issuer >>= λ pair.
          on_kv (write_kv kv cfg.staging_path (two_fields pair)))
  unfolding obtain_pair write_kv
  obtained-Quiet req issuer w =
      ground (arith, count-append is_register w.calls (obtain req.domains ∷ []))

  rest-Quiet :
      (req : IssueRequest) (b : Bool) (user : AcmeUser Key) (issuer : Issuer)
      → b ≡ false
      → Quiet (
          register_if kv lego cfg b user issuer >>= λ u.
          obtain_pair kv lego cfg req.domains issuer >>= λ pair.
          on_kv (write_kv kv cfg.staging_path (two_fields pair)))
  unfolding register_if
  rest-Quiet req true user issuer h w = ground (arith, h)
  rest-Quiet req false user issuer h w = obtained-Quiet req issuer w

  issued-Quiet :
      (req : IssueRequest) (w : World S)
      → ((user : AcmeUser Key × Bool)
          → (ensure_user kv lego cfg req.email w).0 ≡ ok user
          → user.1 ≡ false)
      → registrations (issue_wildcard_cert kv lego cfg req w).1 ≡ registrations w
  unfolding issue_wildcard_cert
  issued-Quiet req w old =
      let P = λ (v : World S). registrations v ≡ registrations w in
      bind_keeps P (ensure_user kv lego cfg req.email) _ w (ensure_user-Quiet req.email w)
        (λ user e.
          bind_keeps P (new_lego_issuer kv lego cfg user.0) _ _
            (new_lego_issuer-Quiet user.0 _ ∙ ensure_user-Quiet req.email w)
            (λ issuer e'.
              rest-Quiet req user.1 user.0 issuer (old user e) _
              ∙ new_lego_issuer-Quiet user.0 _
              ∙ ensure_user-Quiet req.email w))

module _ {S Key : Type 0} (kv : Kv S) (lego : Lego Key) (cfg : Config) (laws : IsKv kv)
    (codec : IsCodec lego) where
  -- Behind an issuance that ends well, an issuance registers no account, as long as Vault holds the
  -- account that the first left and the staging path is another than the account's.
  pub issue_wildcard_cert_registers_once :
      (req next : IssueRequest) (w later : World S)
      → text_eq cfg.staging_path cfg.account_path ≡ false
      → is_ok ((issue_wildcard_cert kv lego cfg req w).0) ≡ true
      → kv.stored later.kv cfg.account_path
        ≡ kv.stored (issue_wildcard_cert kv lego cfg req w).1.kv cfg.account_path
      → registrations (issue_wildcard_cert kv lego cfg next later).1 ≡ registrations later
  issue_wildcard_cert_registers_once req next w later apart h same =
      issued-Quiet kv lego cfg next later (λ user e.
        ensure_user-old kv lego cfg laws codec next.email later user
          (subst (Loads kv lego cfg laws codec) (sym same)
            (issue-HasAccount kv lego cfg laws codec req w apart h))
          e)
