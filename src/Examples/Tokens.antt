-- ===== src/Examples/Tokens.antt =====
-- The tokens of the GitHub App at concrete inputs.
use nomad_temporal_jobs.Prelude.{pos, All, [], ◌∷◌}
use nomad_temporal_jobs.Prelude.Result.{external, ok, err}
use nomad_temporal_jobs.Prelude.Text.{codes}
use nomad_temporal_jobs.Git.App.{
  contents_write, pull_requests_write, secrets_write, administration_write, actions_read,
  list_app_jobs, GitHubApi, Sealing, GitHub, mint_workflow_token, create_runner_registration_token,
  set_repo_secret,
}
use nomad_temporal_jobs.Git.App.Scoped.{IsScoped, app_tokens-IsScoped}

-- GitHub answers all requests but the one that puts a secret.
abbrev api : GitHubApi
api = record {
  app_client = ok tt;
  installations = ok (pos 7 ∷ []);
  installation_token = λ id repos perms. ok (record { token = codes "ghs"; expires_at = 60 });
  token_client = λ token. ok tt;
  repo_public_key = λ cli owner repo. ok (record { key = codes "k"; key_id = codes "1" });
  repo_secret = λ cli owner repo secret. err (external "forbidden");
  registration_token = λ cli owner repo. ok (record { token = codes "reg"; expires_at = 60 });
  listings =
      λ cli owner repo. record { runs = λ status. err (external "forbidden"); jobs = λ run. ok [] };
}

abbrev app : GitHub
app = record { inst_id = pos 7 }

-- A key of another length than 32 bytes is not used.
abbrev sealing : Sealing
sealing = record {
  decode_base64 = λ s. ok s;
  encode_base64 = λ s. s;
  seal_anonymous = λ plaintext key. ok plaintext;
}

app_tokens-IsScoped_example :
    All
      (IsScoped app (codes "o") (codes "r") (contents_write ∷ pull_requests_write ∷ []))
      (mint_workflow_token api app (codes "o") (codes "r") []).1
    × All
        (IsScoped app (codes "o") (codes "r") (administration_write ∷ []))
        (create_runner_registration_token api app (codes "o") (codes "r") []).1
    × All
        (IsScoped app (codes "o") (codes "r") (secrets_write ∷ []))
        (set_repo_secret api sealing app (codes "o") (codes "r") (codes "S") (codes "v") []).1
    × All
        (IsScoped app (codes "o") (codes "r") (actions_read ∷ []))
        (list_app_jobs api app (codes "o") (codes "r") []).1
app_tokens-IsScoped_example =
    app_tokens-IsScoped api app (codes "o") (codes "r") sealing (codes "S") (codes "v")
