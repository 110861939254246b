-- ===== src/Certs/Issue/Published.antt =====
-- What an issued and a published certificate leave in Vault.
use nomad_temporal_jobs.Prelude.{
  ◌≡◌, refl, ◌∙◌, ap, Bool, true, false, Option, none, some, [], ◌∷◌, arith,
}
use nomad_temporal_jobs.Prelude.Result.{Result, ok, err, is_ok, context, is_ok-context}
use nomad_temporal_jobs.Prelude.Text.{Text, codes, is_empty, text_eq}
use nomad_temporal_jobs.Prelude.Trace.{Run, within, ◌>>=◌, bind_inv, bind_keeps}
use nomad_temporal_jobs.Vault.{
  present, Fields, text_field, Kv, IsKv, read_kv, read_kv_maybe, read_kv_field, write_kv,
}
use nomad_temporal_jobs.Certs.{
  Config, classified, Pair, register, Issuer, AcmeUser, Lego, World, on_kv, on_acme, two_fields,
  account_fields,
}
use nomad_temporal_jobs.Certs.Issue.{
  IssueRequest, parse_account, stored_account, load_account, save_account, user_or_new, ensure_user,
  new_lego_issuer, register_if, obtain_pair, issue_wildcard_cert, publish_pair,
  publish_wildcard_cert,
}

ok-read :
    (r : Result (Option Fields)) (d : Fields)
    → context "read staged cert" (context "read" (present r)) ≡ ok d
    → r ≡ ok (some d)
ok-read (ok (some d')) d h = ground (arith, h)
ok-read (ok none) d h = ground (arith, h)
ok-read (err e) d h = ground (arith, h)

-- the pair in the fields of a secret
abbrev pub staged_pair : Fields → Pair
staged_pair d = record { cert = text_field d (codes "cert"); key = text_field d (codes "key") }

module _ {S Key : Type 0} (kv : Kv S) (lego : Lego Key) (cfg : Config) (laws : IsKv kv) where
  abbrev holds : World S → Text → Option Fields
  holds w p = kv.stored w.kv p

  -- The run leaves the path as it is.
  abbrev Spares : {A : Type 0} → Text → Run (World S) A → Type 0
  Spares p m = (w : World S) → holds (m w).1 p ≡ holds w p

  Spares-bind :
      {A B : Type 0} (p : Text) (m : Run (World S) A) (f : A → Run (World S) B)
      → Spares p m
      → ((a : A) → Spares p (f a))
      → Spares p (m >>= f)
  Spares-bind p m f h k w =
      bind_keeps (λ w'. holds w' p ≡ holds w p) m f w (h w) (λ a e. k a (m w).1 ∙ h w)

  pub write_kv-Spares :
      (p q : Text) (d : Fields) → text_eq q p ≡ false → Spares p (on_kv (write_kv kv q d))
  unfolding write_kv
  write_kv-Spares p q d h w = laws.put_apart q p d w.kv h

  parse_account-Spares : (p raw : Text) → Spares p (parse_account kv lego cfg raw)
  unfolding parse_account
  parse_account-Spares p [] w = refl
  parse_account-Spares p (c ∷ raw) w = ground arith

  stored_account-Spares : (p : Text) (o : Option Fields) → Spares p (stored_account kv lego cfg o)
  unfolding stored_account
  stored_account-Spares p none w = refl
  stored_account-Spares p (some d) w = parse_account-Spares p (text_field d (codes "account")) w

  pub load_account-Spares : (p : Text) → Spares p (load_account kv lego cfg)
  unfolding load_account read_kv_maybe
  load_account-Spares p =
      Spares-bind p (on_kv (read_kv_maybe kv cfg.account_path)) (stored_account kv lego cfg)
        (λ w. refl) (stored_account-Spares p)

  user_or_new-Spares :
      (p email : Text) (o : Option (AcmeUser Key)) → Spares p (user_or_new kv lego cfg email o)
  unfolding user_or_new
  user_or_new-Spares p email none w = ground arith
  user_or_new-Spares p email (some user) w = refl

  pub ensure_user-Spares : (p email : Text) → Spares p (ensure_user kv lego cfg email)
  unfolding ensure_user
  ensure_user-Spares p email =
      Spares-bind p (load_account kv lego cfg) (user_or_new kv lego cfg email)
        (load_account-Spares p) (user_or_new-Spares p email)

  pub new_lego_issuer-Spares :
      (p : Text) (user : AcmeUser Key) → Spares p (new_lego_issuer kv lego cfg user)
  unfolding new_lego_issuer read_kv_field read_kv
  new_lego_issuer-Spares p user w = ground arith

  pub save_account-Spares :
      (p : Text) (user : AcmeUser Key)
      → text_eq cfg.account_path p ≡ false
      → Spares p (save_account kv lego cfg user)
  unfolding save_account
  save_account-Spares p user h =
      Spares-bind p _ (λ body. on_kv (write_kv kv cfg.account_path (account_fields body)))
        (λ w. refl) (λ body. write_kv-Spares p cfg.account_path (account_fields body) h)

  pub register_if-Spares :
      (p : Text) (b : Bool) (user : AcmeUser Key) (issuer : Issuer)
      → text_eq cfg.account_path p ≡ false
      → Spares p (register_if kv lego cfg b user issuer)
  unfolding register_if
  register_if-Spares p false user issuer h w = refl
  register_if-Spares p true user issuer h w =
      Spares-bind p
        (on_acme register (classified (codes "register acme account: ") issuer.answer_register))
        (λ reg. save_account kv lego cfg (record user { registration = some reg })) (λ w. refl)
        (λ reg. save_account-Spares p (record user { registration = some reg }) h) w

  -- Whatever the answers, an issuance changes no path of Vault but that of the account and that of
  -- the staged certificate.
  pub issue_wildcard_cert_spares :
      (req : IssueRequest) (p : Text) (w : World S)
      → text_eq cfg.account_path p ≡ false
      → text_eq cfg.staging_path p ≡ false
      → kv.stored (issue_wildcard_cert kv lego cfg req w).1.kv p ≡ kv.stored w.kv p
  unfolding issue_wildcard_cert obtain_pair
  issue_wildcard_cert_spares req p w h k =
      Spares-bind p (ensure_user kv lego cfg req.email) _ (ensure_user-Spares p req.email)
        (λ user.
          Spares-bind p (new_lego_issuer kv lego cfg user.0) _ (new_lego_issuer-Spares p user.0)
            (λ issuer.
              Spares-bind p (register_if kv lego cfg user.1 user.0 issuer) _
                (register_if-Spares p user.1 user.0 issuer h)
                (λ u.
                  Spares-bind p (obtain_pair kv lego cfg req.domains issuer)
                    (λ pair. on_kv (write_kv kv cfg.staging_path (two_fields pair))) (λ v. refl)
                    (λ pair. write_kv-Spares p cfg.staging_path (two_fields pair) k))))
        w

  pub put_fields :
      (p : Text) (d : Fields) (w : World S)
      → is_ok ((on_kv (write_kv kv p d) w).0) ≡ true
      → kv.stored (on_kv (write_kv kv p d) w).1.kv p ≡ some d
  unfolding write_kv
  put_fields p d w h = laws.put_stored p d w.kv (is_ok-context "write" (kv.put p d w.kv).0 h)

  pub put_behind :
      (p : Text) (d : Fields) (w : World S) (r : Result (Unit {0}) × World S)
      → r ≡ on_kv (write_kv kv p d) w
      → is_ok ((on_kv (write_kv kv p d) w).0) ≡ true
      → kv.stored r.1.kv p ≡ some d
  put_behind p d w r e h = ap (λ q. kv.stored q.1.kv p) e ∙ put_fields p d w h

  staged_read :
      (w : World S) (d : Fields)
      → (within "read staged cert" (on_kv (read_kv kv cfg.staging_path)) w).0 ≡ ok d
      → kv.stored w.kv cfg.staging_path ≡ some d
  unfolding read_kv
  staged_read w d h =
      laws.get_stored cfg.staging_path w.kv (some d) (ok-read (kv.get cfg.staging_path w.kv) d h)

  publish_pair-ok :
      (p : Pair) (w : World S)
      → is_ok ((publish_pair kv lego cfg p w).0) ≡ true
      → (is_empty p.cert ≡ false)
        × (is_empty p.key ≡ false)
        × (kv.stored (publish_pair kv lego cfg p w).1.kv cfg.publish_path ≡ some (two_fields p))
  unfolding publish_pair
  publish_pair-ok p w h =
      let put : Run (World S) (Unit {0}) = on_kv (write_kv kv cfg.publish_path (two_fields p)) in
      ground (
        arith,
        h,
        is_ok-context "publish cert" (put w).0,
        put_fields cfg.publish_path (two_fields p) w,
      )

  -- A publication that ends well leaves at the published path the certificate and the key staged
  -- before, neither of them empty.
  pub publish_wildcard_cert_moves :
      (w : World S)
      → is_ok ((publish_wildcard_cert kv lego cfg w).0) ≡ true
      → (d : Fields) × (kv.stored w.kv cfg.staging_path ≡ some d)
        × (is_empty (text_field d (codes "cert")) ≡ false)
        × (is_empty (text_field d (codes "key")) ≡ false)
        × (kv.stored (publish_wildcard_cert kv lego cfg w).1.kv cfg.publish_path
            ≡ some (two_fields (staged_pair d)))
  unfolding publish_wildcard_cert read_kv
  publish_wildcard_cert_moves w h =
      let (d, read, published, same) =
        bind_inv (within "read staged cert" (on_kv (read_kv kv cfg.staging_path)))
          (λ staged. publish_pair kv lego cfg (staged_pair staged)) w h in
      let (has_cert, has_key, put) = publish_pair-ok (staged_pair d) w published in
      (
        d,
        staged_read w d read,
        has_cert,
        has_key,
        ap (λ r. kv.stored r.1.kv cfg.publish_path) same ∙ put,
      )
