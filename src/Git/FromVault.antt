-- ===== src/Git/FromVault.antt =====
-- The GitHub App from a secret of Vault: `NewGitHubFromVault` of shared/client/git/fromvault.go.
use nomad_temporal_jobs.Prelude.{ℤ, pos, List, Option, none, some, if◌then◌else◌}
use nomad_temporal_jobs.Prelude.Result.{Result, external, ok, err, context, ◌>>=◌}
use nomad_temporal_jobs.Prelude.Text.{Text, codes, is_empty}
use nomad_temporal_jobs.Vault.{Fields, text_field}
use nomad_temporal_jobs.Ssh.Host.Du.{parse_int}
use nomad_temporal_jobs.Git.App.{GitRequest, GitHubApi, GitHubConfig, GitHub, new_git_hub}

abbrev parsed_id : Option ℤ → Result ℤ
parsed_id none = err (external "parse int")
parsed_id (some n) = ok n

-- `if s := kvString(data, "installation_id"); s != ""`
installation_id_of : Text → Result ℤ
unfolding parse_int
installation_id_of s =
    let parsed = context "github installation_id" (parsed_id (parse_int s)) in
    if is_empty s then ok (pos 0) else parsed

unfoldable pub config_of : Fields → Result GitHubConfig
unfolding installation_id_of parse_int
config_of fields =
    context "github app_id" (parsed_id (parse_int (text_field fields (codes "app_id"))))
    >>= λ app_id. installation_id_of (text_field fields (codes "installation_id")) >>= λ inst_id.
        let key = text_field fields (codes "private_key") in
        if is_empty key
        then err (external "github private_key missing")
        else ok (record { app_id = app_id; installation_id = inst_id; private_key_pem = key })

unfoldable pub created_from :
    GitHubApi → Result GitHubConfig → List GitRequest → Result GitHub × List GitRequest
unfolding new_git_hub
created_from api (err e) log = (err e, log)
created_from api (ok cfg) log = new_git_hub api cfg log

unfoldable pub new_git_hub_from_vault :
    GitHubApi → Result Fields → List GitRequest → Result GitHub × List GitRequest
unfolding created_from config_of
new_git_hub_from_vault api read log = created_from api (read >>= config_of) log
