-- ===== src/Ssh/Host/Credentials.antt =====
-- The credentials of a client: `NewSSHClient`, `credentials`, `loadSigner`, `buildAuthMethods`,
-- `hostCACallback` and `connect` of shared/client/ssh/ssh.go. The SSH library is a record of its
-- functions, the files are what reading a path gives at the time.
pub mod Offered
use nomad_temporal_jobs.Prelude.{
  ℕ, ◌≡◌, ◌⊎◌, refl, arith, Bool, true, false, ◌==◌, List, [], ◌∷◌, ◌++◌, Option, none, some,
  if◌then◌else◌,
}
use nomad_temporal_jobs.Prelude.Result.{
  Result, Failure, external, ok, err, context, ◌>>=◌, Result-cases,
}
use nomad_temporal_jobs.Prelude.Text.{Text, is_empty, text_eq}

-- Paths; the time-out is in seconds.
pub record SshConfig : Type 0 where
  pub key_path : Text
  pub cert_path : Text
  pub host_ca_path : Text
  pub timeout : ℕ

pub record SshTarget : Type 0 where
  pub host : Text
  pub user : Text
  pub port : ℕ
  pub sudo : Bool

-- A public key is a certificate where `certificate` says so.
pub record SshLibrary (Signer PublicKey Certificate : Type 0) : Type 0 where
  pub parse_private_key : Text → Result Signer
  pub parse_authorized_key : Text → Result PublicKey
  pub certificate : PublicKey → Option Certificate
  pub new_cert_signer : Certificate → Signer → Result Signer
  pub marshal : PublicKey → Text

pub record SshClient (PublicKey : Type 0) : Type 0 where
  pub cfg : SshConfig
  pub is_host_authority : PublicKey → Bool
  pub timeout : ℕ

-- What `ssh.Dial` is asked for. An auth method offers the public key of a signer.
pub record Dial (Signer PublicKey : Type 0) : Type 0 where
  pub host : Text
  pub port : ℕ
  pub user : Text
  pub auth : List Signer
  pub is_host_authority : PublicKey → Bool
  pub timeout : ℕ

module _ {Signer PublicKey Certificate : Type 0} (lib : SshLibrary Signer PublicKey Certificate)
    (read_file : Text → Result Text) where
  unfoldable pub load_signer : Text → Result Signer
  load_signer key_path = context "read ssh key" (read_file key_path) >>= λ key_data.
      context "parse ssh key" (lib.parse_private_key key_data)

  is_certificate : Option Certificate → Result Certificate
  is_certificate none = err (external "ssh cert is not a certificate")
  is_certificate (some cert) = ok cert

  unfoldable pub cert_signer : Signer → Text → Result Signer
  unfolding is_certificate
  cert_signer signer cert_path = context "read ssh cert" (read_file cert_path) >>= λ cert_data.
      context "parse ssh cert" (lib.parse_authorized_key cert_data) >>= λ key.
      is_certificate (lib.certificate key) >>= λ cert.
      context "build cert signer" (lib.new_cert_signer cert signer)

  unfoldable pub build_auth_methods : Signer → Text → Result (List Signer)
  unfolding cert_signer
  build_auth_methods signer cert_path =
      if is_empty cert_path
      then ok (signer ∷ [])
      else cert_signer signer cert_path >>= λ cert. ok (cert ∷ signer ∷ [])

  unfoldable pub credentials : SshConfig → Result (List Signer)
  unfolding load_signer build_auth_methods
  credentials cfg = load_signer cfg.key_path >>= λ signer. build_auth_methods signer cfg.cert_path

  unfoldable pub host_ca_callback : Text → Result (PublicKey → Bool)
  host_ca_callback ca_path = context "read host CA" (read_file ca_path) >>= λ ca_data.
      context "parse host CA key" (lib.parse_authorized_key ca_data) >>= λ ca_key.
      ok (λ auth. text_eq (lib.marshal auth) (lib.marshal ca_key))

  -- The credentials are read to fail early, and forgotten.
  unfoldable pub new_ssh_client : SshConfig → Result (SshClient PublicKey)
  unfolding credentials host_ca_callback
  new_ssh_client cfg = credentials cfg >>= λ auth. host_ca_callback cfg.host_ca_path >>= λ host_key.
      ok (record {
        cfg = cfg;
        is_host_authority = host_key;
        timeout = if cfg.timeout == 0 then 30 else cfg.timeout;
      })

  -- the request to dial, with the credentials that the files hold now
  unfoldable pub dial_request : SshClient PublicKey → SshTarget → Result (Dial Signer PublicKey)
  unfolding credentials
  dial_request c t = credentials c.cfg >>= λ auth. ok (record {
    host = t.host;
    port = if t.port == 0 then 22 else t.port;
    user = t.user;
    auth = auth;
    is_host_authority = c.is_host_authority;
    timeout = c.timeout;
  })

  -- A connection runs commands behind sudo where its target says so.
  unfoldable pub connect :
      (Dial Signer PublicKey → Result (Unit {0})) → SshClient PublicKey → SshTarget → Result Bool
  unfolding dial_request
  connect dial c t = dial_request c t >>= λ req. context "ssh dial" (dial req) >>= λ u. ok t.sudo
