-- ===== src/Runner/Modes.antt =====
-- The modes as the poll, the child's spec and the dispatch read them.
use nomad_temporal_jobs.Prelude.{
  ℤ, ◌≡◌, ◌≢◌, true, false, List, arith, Bool-cases, inl, inr, [], ◌⊎◌, not,
}
use nomad_temporal_jobs.Prelude.Result.{ok}
use nomad_temporal_jobs.Prelude.Text.{Text, text_eq, text_eq_iff, equal_fold, to_lower}
use nomad_temporal_jobs.Runner.Config.{RepoConfig, is_vault_mode, mode_vault, mode_forgejo}
use nomad_temporal_jobs.Runner.Shortfall.{runner_spec}
use nomad_temporal_jobs.Runner.Dispatch.{PollRepo, Client, app, Services, lister_for, minter_for}
use nomad_temporal_jobs.Runner.Child.{dispatch_spec}

-- The poll's view of a repository.
abbrev pub poll_repo : Text → RepoConfig → PollRepo
poll_repo repo rc = record {
  repo = repo;
  mode = rc.mode;
  vault_path = rc.vault_path;
  forgejo_url = rc.forgejo_url;
}

-- A spec asks to mint a token exactly outside the mode spelled `vault`, and it never both asks for
-- one and carries the path of a secret.
pub runner_spec_exclusive :
    (repo : Text) (labels : List Text) (rc : RepoConfig) (reap_after : ℤ)
    → ((runner_spec repo labels rc reap_after).mint_token ≡ not (text_eq rc.mode mode_vault))
      × (((runner_spec repo labels rc reap_after).mint_token ≡ false)
          ⊎ ((runner_spec repo labels rc reap_after).vault_secret ≡ []))
unfolding runner_spec is_vault_mode
runner_spec_exclusive repo labels rc reap_after = ground arith

vault-ne-forgejo :
    (mode : Text) → equal_fold mode mode_vault ≡ true → equal_fold mode mode_forgejo ≡ false
unfolding equal_fold
vault-ne-forgejo mode h = elim (Bool-cases (equal_fold mode mode_forgejo)) [
  | inl f ↦
      cc (
        (text_eq_iff (to_lower mode) mode_vault).0 h,
        (text_eq_iff (to_lower mode) mode_forgejo).0 f,
      )
  | inr f ↦ f
]

-- A repository whose mode is `vault` but for the case of its letters is polled with a client that is
-- not the App's, while the spec of its runners asks to mint a token, which the App's client mints.
pub vault_spelling_mints :
    (s : Services) (repo : Text) (labels : List Text) (rc : RepoConfig) (reap_after : ℤ)
    → equal_fold rc.mode mode_vault ≡ true
    → rc.mode ≢ mode_vault
    → ((runner_spec repo labels rc reap_after).mint_token ≡ true)
      × (minter_for s (dispatch_spec (runner_spec repo labels rc reap_after)) [] ≡ (ok app, []))
      × ((c : Client) → (lister_for s (poll_repo repo rc) []).0 ≡ ok c → c ≢ app)
unfolding runner_spec is_vault_mode dispatch_spec minter_for lister_for
vault_spelling_mints s repo labels rc reap_after fold other = (
  ground (arith, text_eq_iff rc.mode mode_vault),
  ground (arith, vault-ne-forgejo rc.mode fold),
  λ c e. ground (arith, vault-ne-forgejo rc.mode fold),
)
