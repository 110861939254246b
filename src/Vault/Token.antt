-- ===== src/Vault/Token.antt =====
-- The token of a worker: `workloadToken`, `NewVaultClient` and `StartTokenRefresher` of
-- shared/client/vault/vault.go. The environment gives the values of its variables, empty without one;
-- the HTTP configuration and the client of Vault's library are one answer.
use nomad_temporal_jobs.Prelude.{ℕ, suc, ◌+◌, ◌≡◌, arith, not, List, [], ◌∷◌, if◌then◌else◌}
use nomad_temporal_jobs.Prelude.Result.{Result, external, ok, err, context, ◌>>=◌}
use nomad_temporal_jobs.Prelude.Text.{Text, codes, is_empty, text_eq, text_eq_iff, trim_space}

pub record Environment : Type 0 where
  pub vault_addr : Text
  pub vault_token : Text
  pub vault_token_file : Text
  pub vault_kv_mount : Text

pub record VaultClient : Type 0 where
  pub address : Text
  pub token : Text
  pub mount : Text
  pub token_file : Text

unfoldable pub workload_token : Environment → (Text → Result Text) → Result Text
workload_token env read_file =
    let from_file =
      context "read vault token file" (read_file env.vault_token_file) >>= λ b. ok (trim_space b) in
    if not (is_empty env.vault_token)
    then ok (trim_space env.vault_token)
    else if not (is_empty env.vault_token_file)
    then from_file
    else err (external "no vault token available")

unfoldable pub new_vault_client :
    Result (Unit {0}) → Environment → (Text → Result Text) → Result VaultClient
unfolding workload_token
new_vault_client created env read_file = context "create vault client" created >>= λ u.
    workload_token env read_file >>= λ token. ok (record {
      address =
          if is_empty env.vault_addr
          then codes "https://vault.service.consul:8200"
          else env.vault_addr;
      token = token;
      mount = if is_empty env.vault_kv_mount then codes "secret" else env.vault_kv_mount;
      token_file = env.vault_token_file;
    })

-- The state of the refresher: the token in use and the tokens that were set, oldest first.
pub record Refresher : Type 0 where
  pub token : Text
  pub sets : ℕ

-- One tick, with what reading the file gives then.
unfoldable pub refresh_tick : Result Text → Refresher → Refresher
refresh_tick (err e) s = s
refresh_tick (ok b) s =
    if text_eq (trim_space b) s.token then s else record { token = trim_space b; sets = suc s.sets }

unfoldable pub refresh_ticks : List (Result Text) → Refresher → Refresher
unfolding refresh_tick
refresh_ticks [] s = s
refresh_ticks (r ∷ reads) s = refresh_ticks reads (refresh_tick r s)

-- The ticks until the context is done; without a file there are none.
unfoldable pub start_token_refresher : VaultClient → List (Result Text) → Refresher
unfolding refresh_ticks
start_token_refresher c reads =
    let fresh : Refresher = record { token = c.token; sets = 0 } in
    if is_empty c.token_file then fresh else refresh_ticks reads fresh

-- the last text that could be read, trimmed
abbrev pub last_read : Text → List (Result Text) → Text
last_read token [] = token
last_read token (err e ∷ reads) = last_read token reads
last_read token (ok b ∷ reads) = last_read (trim_space b) reads

-- how often a text that could be read differs from the one before
abbrev pub changes : Text → List (Result Text) → ℕ
changes token [] = 0
changes token (err e ∷ reads) = changes token reads
changes token (ok b ∷ reads) =
    let rest = changes (trim_space b) reads in
    if text_eq (trim_space b) token then rest else suc rest

refresh_ticks_lem :
    (reads : List (Result Text)) (s : Refresher)
    → ((refresh_ticks reads s).token ≡ last_read s.token reads)
      × ((refresh_ticks reads s).sets ≡ s.sets + changes s.token reads)
unfolding refresh_ticks refresh_tick
refresh_ticks_lem [] s = ground arith
refresh_ticks_lem (err e ∷ reads) s = refresh_ticks_lem reads s
refresh_ticks_lem (ok b ∷ reads) s = ground (
  arith,
  refresh_ticks_lem reads s,
  refresh_ticks_lem reads (record { token = trim_space b; sets = suc s.sets }),
  text_eq_iff (trim_space b) s.token,
)

-- Of a client whose token came from a file, the token in use after any ticks is the text of the last
-- one that could read the file, trimmed, or the first token if none could, and the token was set once
-- for each change of that text; a client without a token file keeps its token and sets none.
pub start_token_refresher_lem :
    (c : VaultClient) (reads : List (Result Text))
    → ((start_token_refresher c reads).token
        ≡ (if is_empty c.token_file then c.token else last_read c.token reads))
      × ((start_token_refresher c reads).sets
          ≡ (if is_empty c.token_file then 0 else changes c.token reads))
unfolding start_token_refresher
start_token_refresher_lem c reads =
    ground (arith, refresh_ticks_lem reads (record { token = c.token; sets = 0 }))
