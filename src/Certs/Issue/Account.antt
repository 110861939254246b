-- ===== src/Certs/Issue/Account.antt =====
-- The ACME account is registered once: behind an issuance that ends well the account is stored.
use nomad_temporal_jobs.Prelude.{
  ◌≡◌, refl, sym, ◌∙◌, ap, subst, Bool, true, false, Option, none, some, [], ◌∷◌, arith,
}
use nomad_temporal_jobs.Prelude.Result.{Result, ok, err, is_ok, context-ok}
use nomad_temporal_jobs.Prelude.Text.{Text, text_eq, codes, is_empty}
use nomad_temporal_jobs.Prelude.Trace.{within, bind_inv, bind_ok}
use nomad_temporal_jobs.Vault.{Fields, text_field, Kv, IsKv, read_kv_maybe, write_kv}
use nomad_temporal_jobs.Certs.{
  Config, classified, register, Issuer, AcmeUser, PersistedAccount, Lego, World, on_kv, on_acme,
  lift, two_fields, account_fields,
}
use nomad_temporal_jobs.Certs.Issue.{
  IssueRequest, parse_account, stored_account, load_account, save_account, user_or_new, ensure_user,
  new_lego_issuer, register_if, obtain_pair, issue_wildcard_cert,
}
use nomad_temporal_jobs.Certs.Issue.Published.{
  put_behind, write_kv-Spares, ensure_user-Spares, new_lego_issuer-Spares,
}

abbrev is_none : {A : Type 0} → Option A → Bool
is_none none = true
is_none (some a) = false

abbrev absent : {A : Type 0} → Result (Option A) → Bool
absent (err e) = true
absent (ok o) = is_none o

-- What is coded is decoded: an account as text that is not empty, and a key.
pub record IsCodec {Key : Type 0} (lego : Lego Key) : Type 0 where
  pub unmarshal_marshal :
      (acc : PersistedAccount) (body : Text)
      → lego.marshal acc ≡ ok body
      → (is_empty body ≡ false) × (lego.unmarshal body ≡ ok acc)
  pub parse_encode : (k : Key) → lego.parse_pem (lego.pem_encode k) ≡ ok k

module _ {S Key : Type 0} (kv : Kv S) (lego : Lego Key) (cfg : Config) (laws : IsKv kv)
    (codec : IsCodec lego) where
  abbrev persisted : AcmeUser Key → PersistedAccount
  persisted user = record {
    email = user.email;
    key_pem = lego.pem_encode user.key;
    registration = user.registration;
  }

  -- The secret holds an account that can be read.
  abbrev pub Loads : Option Fields → Type 0
  Loads o =
      (user : AcmeUser Key) × ((w : World S) → (stored_account kv lego cfg o w).0 ≡ ok (some user))

  parse_account-same :
      (raw : Text) (v w : World S)
      → (parse_account kv lego cfg raw v).0 ≡ (parse_account kv lego cfg raw w).0
  unfolding parse_account
  parse_account-same [] v w = refl
  parse_account-same (c ∷ raw) v w = ground arith

  stored_account-same :
      (o : Option Fields) (v w : World S)
      → (stored_account kv lego cfg o v).0 ≡ (stored_account kv lego cfg o w).0
  unfolding stored_account
  stored_account-same none v w = refl
  stored_account-same (some d) v w = parse_account-same (text_field d (codes "account")) v w

  loaded :
      (w : World S) (a : Option (AcmeUser Key))
      → (load_account kv lego cfg w).0 ≡ ok a
      → (v : World S) → (stored_account kv lego cfg (kv.stored w.kv cfg.account_path) v).0 ≡ ok a
  unfolding load_account read_kv_maybe
  loaded w a h v =
      let (o, read, parsed) =
        bind_ok (on_kv (read_kv_maybe kv cfg.account_path)) (stored_account kv lego cfg) w a h in
      let same =
        laws.get_stored cfg.account_path w.kv o
          (context-ok "read" (kv.get cfg.account_path w.kv) o read) in
      ap (λ q. (stored_account kv lego cfg q v).0) same ∙ stored_account-same o v w ∙ parsed

  new_without :
      (email : Text) (o : Option (AcmeUser Key)) (w : World S) (user : AcmeUser Key × Bool)
      → (user_or_new kv lego cfg email o w).0 ≡ ok user
      → user.1 ≡ is_none o
  unfolding user_or_new
  new_without email none w user h = ground (arith, h)
  new_without email (some u) w user h = ground (arith, h)

  ensure_user-new :
      (email : Text) (w : World S) (user : AcmeUser Key × Bool)
      → (ensure_user kv lego cfg email w).0 ≡ ok user
      → (o : Option (AcmeUser Key)) × ((load_account kv lego cfg w).0 ≡ ok o) × (user.1 ≡ is_none o)
  unfolding ensure_user
  ensure_user-new email w user h =
      let (o, load, made) =
        bind_ok (load_account kv lego cfg) (user_or_new kv lego cfg email) w user h in
      (o, load, new_without email o _ user made)

  parse_account-saved :
      (acc : AcmeUser Key) (body : Text) (w : World S)
      → is_empty body ≡ false
      → lego.unmarshal body ≡ ok (persisted acc)
      → (parse_account kv lego cfg body w).0 ≡ ok (some acc)
  unfolding parse_account is_empty
  parse_account-saved acc [] w h k = ground (arith, h)
  parse_account-saved acc (c ∷ body) w h k = ground (arith, k, codec.parse_encode acc.key)

  save_account-Loads :
      (user : AcmeUser Key) (w : World S)
      → is_ok ((save_account kv lego cfg user w).0) ≡ true
      → Loads (kv.stored (save_account kv lego cfg user w).1.kv cfg.account_path)
  unfolding save_account stored_account text_eq
  save_account-Loads user w h =
      let (body, coded, put, q) =
        bind_inv (within "encode acme account" (lift (lego.marshal (persisted user))))
          (λ body. on_kv (write_kv kv cfg.account_path (account_fields body))) w h in
      let law =
        codec.unmarshal_marshal (persisted user) body
          (context-ok "encode acme account" (lego.marshal (persisted user)) body coded) in
      subst Loads
        (sym (put_behind kv lego cfg laws cfg.account_path (account_fields body) _ _ q put))
        (user, λ v. parse_account-saved user body v law.0 law.1)

  abbrev pub HasAccount : World S → Type 0
  HasAccount w = Loads (kv.stored w.kv cfg.account_path)

  loaded-HasAccount :
      (w : World S) (user : AcmeUser Key)
      → (load_account kv lego cfg w).0 ≡ ok (some user)
      → HasAccount w
  loaded-HasAccount w user h = (user, loaded w (some user) h)

  register_if-HasAccount :
      (b : Bool) (user : AcmeUser Key) (issuer : Issuer) (w : World S)
      → (b ≡ false → HasAccount w)
      → is_ok ((register_if kv lego cfg b user issuer w).0) ≡ true
      → HasAccount (register_if kv lego cfg b user issuer w).1
  unfolding register_if
  register_if-HasAccount false user issuer w h k = h refl
  register_if-HasAccount true user issuer w h k =
      let (reg, granted, saved, q) =
        bind_inv
          (on_acme register (classified (codes "register acme account: ") issuer.answer_register))
          (λ reg. save_account kv lego cfg (record user { registration = some reg })) w k in
      subst (λ r. HasAccount r.1) (sym q)
        (save_account-Loads (record user { registration = some reg }) _ saved)

  old-HasAccount :
      (w : World S) (o : Option (AcmeUser Key))
      → (load_account kv lego cfg w).0 ≡ ok o
      → is_none o ≡ false
      → HasAccount w
  old-HasAccount w none h k = ground (arith, k)
  old-HasAccount w (some user) h k = loaded-HasAccount w user h

  ensure_user-HasAccount :
      (email : Text) (w : World S) (user : AcmeUser Key × Bool)
      → (ensure_user kv lego cfg email w).0 ≡ ok user
      → user.1 ≡ false
      → HasAccount w
  ensure_user-HasAccount email w user h k =
      let (o, load, new) = ensure_user-new email w user h in old-HasAccount w o load (sym new ∙ k)

  HasAccount-behind :
      text_eq cfg.staging_path cfg.account_path ≡ false
      → (d : Fields) (w : World S) (r : Result (Unit {0}) × World S)
      → r ≡ on_kv (write_kv kv cfg.staging_path d) w
      → HasAccount w
      → HasAccount r.1
  HasAccount-behind apart d w r e h =
      subst (λ q. HasAccount q.1) (sym e)
        (subst Loads
          (sym (write_kv-Spares kv lego cfg laws cfg.account_path cfg.staging_path d apart w)) h)

  pub issue-HasAccount :
      (req : IssueRequest) (w : World S)
      → text_eq cfg.staging_path cfg.account_path ≡ false
      → is_ok ((issue_wildcard_cert kv lego cfg req w).0) ≡ true
      → HasAccount (issue_wildcard_cert kv lego cfg req w).1
  unfolding issue_wildcard_cert obtain_pair
  issue-HasAccount req w apart h =
      let (user, ensured, h1, q1) = bind_inv (ensure_user kv lego cfg req.email) _ w h in
      let (issuer, built, h2, q2) = bind_inv (new_lego_issuer kv lego cfg user.0) _ _ h1 in
      let (u, registered, h3, q3) =
        bind_inv (register_if kv lego cfg user.1 user.0 issuer) _ _ h2 in
      let (pair, got, h4, q4) =
        bind_inv (obtain_pair kv lego cfg req.domains issuer)
          (λ pair. on_kv (write_kv kv cfg.staging_path (two_fields pair))) _ h3 in
      let before = λ (old : user.1 ≡ false).
        subst Loads
          (sym (
            new_lego_issuer-Spares kv lego cfg laws cfg.account_path user.0 _
            ∙ ensure_user-Spares kv lego cfg laws cfg.account_path req.email w))
          (ensure_user-HasAccount req.email w user ensured old) in
      let behind = register_if-HasAccount user.1 user.0 issuer _ before (ap is_ok registered) in
      HasAccount-behind apart (two_fields pair) _ _ (q1 ∙ q2 ∙ q3 ∙ q4) behind

  -- With an account that can be read, none is new.
  pub ensure_user-old :
      (email : Text) (w : World S) (user : AcmeUser Key × Bool)
      → HasAccount w
      → (ensure_user kv lego cfg email w).0 ≡ ok user
      → user.1 ≡ false
  ensure_user-old email w user h k =
      let (o, load, new) = ensure_user-new email w user k in
      new ∙ ap (λ r. absent r) (sym (loaded w o load w) ∙ h.1 w)
