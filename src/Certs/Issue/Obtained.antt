-- ===== src/Certs/Issue/Obtained.antt =====
-- The certificate that a run publishes is the one that it obtained.
use nomad_temporal_jobs.Prelude.{
  ◌≡◌, refl, sym, ◌∙◌, ap, true, false, Option, none, some, List, [], arith,
}
use nomad_temporal_jobs.Prelude.Result.{ok, is_ok, context-ok}
use nomad_temporal_jobs.Prelude.Text.{Text, text_eq, codes, is_empty}
use nomad_temporal_jobs.Prelude.Trace.{within, bind_inv, bind_ok}
use nomad_temporal_jobs.Vault.{Fields, Kv, IsKv, read_kv_field, write_kv}
use nomad_temporal_jobs.Certs.{
  Config, classified, Pair, Issuer, AcmeUser, Lego, World, on_kv, lift, two_fields, Answer, granted,
  refused,
}
use nomad_temporal_jobs.Certs.Issue.{
  IssueRequest, ensure_user, new_lego_issuer, register_if, obtain_pair, issue_wildcard_cert,
  publish_wildcard_cert, cert_acquirer,
}
use nomad_temporal_jobs.Certs.Issue.Published.{put_behind, staged_pair, publish_wildcard_cert_moves}

classified-ok :
    {A : Type 0} (prefix : Text) (q : Answer A) (a : A) → classified prefix q ≡ ok a → q ≡ granted a
unfolding classified
classified-ok prefix (granted b) a h = ground (arith, h)
classified-ok prefix (refused e) a h = ground (arith, h)

abbrev fields_of : Option Fields → Fields
fields_of none = []
fields_of (some d) = d

module _ {S Key : Type 0} (kv : Kv S) (lego : Lego Key) (cfg : Config) (laws : IsKv kv) where
  staged_pair-two_fields : (p : Pair) → staged_pair (two_fields p) ≡ p
  unfolding text_eq
  staged_pair-two_fields p = refl

  -- the pair was obtained for the domains from an issuer that lego built
  abbrev pub IsObtained : List Text → Pair → Type 0
  IsObtained domains p =
      (user : AcmeUser Key) × (token : Text) × (client : Issuer) × (issuer : Issuer)
      × (lego.new_client user ≡ ok client)
      × (lego.set_provider token client ≡ ok issuer)
      × (issuer.answer_obtain domains ≡ granted p)

  new_lego_issuer-ok :
      (user : AcmeUser Key) (w : World S) (issuer : Issuer)
      → (new_lego_issuer kv lego cfg user w).0 ≡ ok issuer
      → (token : Text) × (client : Issuer) × (lego.new_client user ≡ ok client)
        × (lego.set_provider token client ≡ ok issuer)
  unfolding new_lego_issuer
  new_lego_issuer-ok user w issuer h =
      let (client, built, h1) =
        bind_ok (within "create acme client" (lift (lego.new_client user))) _ w issuer h in
      let (token, read, h2) =
        bind_ok
          (within "read cloudflare token"
            (on_kv (read_kv_field kv cfg.cf_token_path cfg.cf_token_field)))
          (λ token. within "set dns-01 provider" (lift (lego.set_provider token client))) w issuer
          h1 in
      (
        token,
        client,
        context-ok "create acme client" (lego.new_client user) client built,
        context-ok "set dns-01 provider" (lego.set_provider token client) issuer h2,
      )

  issue_wildcard_cert-ok :
      (req : IssueRequest) (w : World S)
      → is_ok ((issue_wildcard_cert kv lego cfg req w).0) ≡ true
      → (p : Pair) × IsObtained req.domains p
        × (kv.stored (issue_wildcard_cert kv lego cfg req w).1.kv cfg.staging_path
            ≡ some (two_fields p))
  unfolding issue_wildcard_cert obtain_pair
  issue_wildcard_cert-ok req w h =
      let (user, _, h1, q1) = bind_inv (ensure_user kv lego cfg req.email) _ w h in
      let (issuer, built, h2, q2) = bind_inv (new_lego_issuer kv lego cfg user.0) _ _ h1 in
      let (u, _, h3, q3) = bind_inv (register_if kv lego cfg user.1 user.0 issuer) _ _ h2 in
      let (pair, got, h4, q4) =
        bind_inv (obtain_pair kv lego cfg req.domains issuer)
          (λ pair. on_kv (write_kv kv cfg.staging_path (two_fields pair))) _ h3 in
      let (token, client, made, provided) = new_lego_issuer-ok user.0 _ issuer built in
      (
        pair,
        (
          user.0,
          token,
          client,
          issuer,
          made,
          provided,
          classified-ok (codes "obtain certificate: ") (issuer.answer_obtain req.domains) pair got,
        ),
        put_behind kv lego cfg laws cfg.staging_path (two_fields pair) _ _ (q1 ∙ q2 ∙ q3 ∙ q4) h4,
      )

  -- When a run of the workflow ends well, the published certificate and key are those that an issuer
  -- built by lego answered with for the requested domains, and neither is empty.
  pub cert_acquirer_publishes :
      (req : IssueRequest) (w : World S)
      → is_ok ((cert_acquirer kv lego cfg req w).0) ≡ true
      → (p : Pair) × IsObtained req.domains p
        × (is_empty p.cert ≡ false)
        × (is_empty p.key ≡ false)
        × (kv.stored (cert_acquirer kv lego cfg req w).1.kv cfg.publish_path ≡ some (two_fields p))
  unfolding cert_acquirer
  cert_acquirer_publishes req w h =
      let (u, issued, h1, q1) =
        bind_inv (issue_wildcard_cert kv lego cfg req) (λ v. publish_wildcard_cert kv lego cfg) w
          h in
      let (p, obtained, staged) = issue_wildcard_cert-ok req w (ap is_ok issued) in
      let (d, read, cert, key, put) = publish_wildcard_cert_moves kv lego cfg laws _ h1 in
      let same : d ≡ two_fields p = ap fields_of (sym read ∙ staged) in
      (
        p,
        obtained,
        ap (λ f. is_empty f.cert) (sym (staged_pair-two_fields p) ∙ ap (staged_pair) (sym same))
            ∙ cert,
        ap (λ f. is_empty f.key) (sym (staged_pair-two_fields p) ∙ ap (staged_pair) (sym same))
            ∙ key,
        ap (λ r. kv.stored r.1.kv cfg.publish_path) q1
            ∙ put
            ∙ ap (λ f. some (two_fields f)) (ap (staged_pair) same ∙ staged_pair-two_fields p),
      )
