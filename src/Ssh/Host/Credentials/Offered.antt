-- ===== src/Ssh/Host/Credentials/Offered.antt =====
-- What a connection offers the host to log in with.
use nomad_temporal_jobs.Prelude.{
  ◌≡◌, ◌≢◌, ◌∙◌, ℕ, ◌==◌, sym, ap, subst, arith, if◌then◌else◌, Bool, true, false, List, [], ◌∷◌,
}
use nomad_temporal_jobs.Prelude.Result.{Result, ok, err, ◌>>=◌, then_ok, ok_inj}
use nomad_temporal_jobs.Prelude.Text.{Text, is_empty}
use nomad_temporal_jobs.Ssh.Host.Credentials.{
  SshConfig, SshTarget, SshLibrary, SshClient, Dial, load_signer, cert_signer, build_auth_methods,
  credentials, host_ca_callback, new_ssh_client, dial_request,
}

module _ {A : Type 0} where
  abbrev pub OkWith : (A → Type 0) → Result A → Type 0
  OkWith P (ok a) = P a
  OkWith P (err e) = Unit

module _ {Signer PublicKey Certificate : Type 0}
    (lib : SshLibrary Signer PublicKey Certificate) where
  -- The methods that a target is offered: the key alone where no certificate is configured, the
  -- certificate before the key where one is.
  abbrev pub IsOffer : (Text → Result Text) → SshConfig → List Signer → Type 0
  IsOffer files cfg auth =
      (key : Signer) × (load_signer lib files cfg.key_path ≡ ok key)
      × (if is_empty cfg.cert_path
          then auth ≡ key ∷ []
          else ((cert : Signer) × (cert_signer lib files key cfg.cert_path ≡ ok cert)
              × (auth ≡ cert ∷ key ∷ [])))

  credentials-IsOffer :
      (files : Text → Result Text) (cfg : SshConfig) (auth : List Signer)
      → credentials lib files cfg ≡ ok auth
      → IsOffer files cfg auth
  unfolding credentials build_auth_methods
  credentials-IsOffer files cfg auth h =
      let (key, p, q) = then_ok (load_signer lib files cfg.key_path) _ auth h in
      (key, p, by_path key (is_empty cfg.cert_path) q)
    where
      by_path :
          (key : Signer) (b : Bool)
          → (if b
              then ok (key ∷ [])
              else (cert_signer lib files key cfg.cert_path >>= λ cert. ok (cert ∷ key ∷ [])))
            ≡ ok auth
          → (if b
              then auth ≡ key ∷ []
              else ((cert : Signer) × (cert_signer lib files key cfg.cert_path ≡ ok cert)
                  × (auth ≡ cert ∷ key ∷ [])))
      by_path key true q = sym (ok_inj _ _ q)
      by_path key false q =
          let (cert, p, e) = then_ok (cert_signer lib files key cfg.cert_path) _ auth q in
          (cert, p, sym (ok_inj _ _ e))

  timeout-NotZero : (n : ℕ) → (if n == 0 then 30 else n) ≢ 0
  timeout-NotZero n z = ground (arith, z)

  port-NotZero : (n : ℕ) → (if n == 0 then 22 else n) ≢ 0
  port-NotZero n z = ground (arith, z)

  client_cfg :
      (files : Text → Result Text) (cfg : SshConfig) (c : SshClient PublicKey)
      → new_ssh_client lib files cfg ≡ ok c
      → (c.cfg ≡ cfg) × (c.timeout ≢ 0)
  unfolding new_ssh_client
  client_cfg files cfg c h =
      let (auth, p, q) = then_ok (credentials lib files cfg) _ c h in
      let (host_key, r, e) = then_ok (host_ca_callback lib files cfg.host_ca_path) _ c q in
      (
        sym (ap (λ c. c.cfg) (ok_inj _ _ e)),
        λ z. timeout-NotZero cfg.timeout (ap (λ c. c.timeout) (ok_inj _ _ e) ∙ z),
      )

  -- A connection of a client offers what the files hold when it is dialled, whatever they held when
  -- the client was made: the key alone where the client was made without the path of a certificate,
  -- and otherwise the certificate before the key, never the key without it. The port is never 0.
  pub dial_request-IsOffer :
      (start now : Text → Result Text) (cfg : SshConfig) (c : SshClient PublicKey) (t : SshTarget)
      (req : Dial Signer PublicKey)
      → new_ssh_client lib start cfg ≡ ok c
      → dial_request lib now c t ≡ ok req
      → IsOffer now cfg req.auth × (req.port ≢ 0) × (req.timeout ≢ 0)
  unfolding dial_request
  dial_request-IsOffer start now cfg c t req h k =
      let (same, positive) = client_cfg start cfg c h in
      let (auth, p, q) = then_ok (credentials lib now c.cfg) _ req k in
      let e = ok_inj _ _ q in
      (
        subst (λ a. IsOffer now cfg a) (ap (λ r. r.auth) e)
            (credentials-IsOffer now cfg auth
              (subst (λ g. credentials lib now g ≡ ok auth) same p)),
        λ z. port-NotZero t.port (ap (λ r. r.port) e ∙ z),
        λ z. positive (ap (λ r. r.timeout) e ∙ z),
      )
