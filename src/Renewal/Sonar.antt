-- ===== src/Renewal/Sonar.antt =====
-- The activities of the token renewal: `ListRepos` and `RenewRepoToken` of
-- ghtokenrenewer/activities/activities.go with `ParseRepoList` of shared/client/git/repos.go, and
-- `RenewSonarCloudToken` of ghtokenrenewer/activities/sonarcloud.go. SonarCloud and GitHub are
-- parameters over a state of their own; beside it stand the calls that had to change something.
pub mod Calls
pub mod Prefix
pub mod Retry
use nomad_temporal_jobs.Prelude.{
  ℕ, zero, suc, ◌+◌, Bool, true, false, ◌||◌, ◌&&◌, not, Option, none, some, List, [], ◌∷◌, ◌++◌,
  keep, if◌then◌else◌,
}
use nomad_temporal_jobs.Prelude.Result.{Result, Failure, external, non_retryable, ok, err, is_ok}
use nomad_temporal_jobs.Prelude.Text.{Text, codes, text_eq, is_empty, has_prefix, trim_space, split}
use nomad_temporal_jobs.Prelude.Trace.{Run, pure, fail, within, continue, ignore, ◌>>=◌, ◌>>◌}
use nomad_temporal_jobs.Runner.Dispatch.{split_repo}

is_entry : Text → Bool
is_entry line = not (is_empty line || has_prefix line (codes "#"))

kept_lines : List Text → List Text
unfolding is_entry
kept_lines [] = []
kept_lines (l ∷ ls) =
    let rest = kept_lines ls in if is_entry (trim_space l) then trim_space l ∷ rest else rest

unfoldable pub parse_repo_list : Text → List Text
unfolding kept_lines
parse_repo_list s = kept_lines (split b'\n' s)

-- the value of the key, `none` where it is missing
unfoldable pub list_repos : Result (Option Text) → Result (List Text)
unfolding parse_repo_list
list_repos (err e) = err e
list_repos (ok none) = err (non_retryable "RepoListMissing")
list_repos (ok (some raw)) = ok (parse_repo_list raw)

pub data Call : Type 0 where
  mint : Text → Call
  set_secret : Text → Text → Text → Text → Call
  revoke : Text → Call

-- The services, each call of which may change their state. An expiry is a number of seconds, `none`
-- for a token that does not expire.
pub record Services (S : Type 0) : Type 0 where
  pub mint_workflow_token : Text → Text → Run S (Text × ℕ)
  pub set_repo_secret : Text → Text → Text → Text → Run S (Unit {0})
  pub mint_token : Text → Option ℕ → Run S Text
  pub list_token_names : Run S (List Text)
  pub revoke_token : Text → Run S (Unit {0})

pub record World (S : Type 0) : Type 0 where
  pub outside : S
  pub calls : List Call

abbrev pub reading : {S A : Type 0} → Run S A → Run (World S) A
reading m w = let (r, s) = m w.outside in (r, record w { outside = s })

abbrev pub calling : {S A : Type 0} → Call → Run S A → Run (World S) A
calling c m w = let (r, s) = m w.outside in (r, record { outside = s; calls = w.calls ++ (c ∷ []) })

unfoldable pub token_prefix : Text → Text → Text
token_prefix owner repo = codes "munchbox-ci/" ++ owner ++ (b'/' ∷ repo) ++ (b'/' ∷ [])

-- `stamp` is the decimal text of the seconds of the time
unfoldable pub token_name : Text → Text → Text → Text
unfolding token_prefix
token_name owner repo stamp = token_prefix owner repo ++ stamp

-- the negation of `n == keep || !strings.HasPrefix(n, prefix)`
unfoldable pub is_prior : Text → Text → Text → Bool
is_prior prefix kept n = not (text_eq n kept) && has_prefix n prefix

unfoldable pub failed_if : ℕ → Result (Unit {0})
failed_if zero = ok tt
failed_if (suc n) = err (external "revoke prior tokens")

-- `expiry` follows from the time of the schedule and the configured lifetime, 0 for none.
unfoldable pub expiry_of : ℕ → ℕ → Option ℕ
expiry_of at zero = none
expiry_of at (suc ttl) = some (at + suc ttl)

pub record Renewal : Type 0 where
  pub repo : Text
  pub token_name : Text
  pub expires_at : Option ℕ

module _ {S : Type 0} (services : Services S) where
  -- the failures among the revocations
  unfoldable pub revoke_each : Text → Text → List Text → ℕ → Run (World S) ℕ
  revoke_each prefix kept [] n = pure n
  revoke_each prefix kept (name ∷ names) n =
      if is_prior prefix kept name
      then ignore (calling (revoke name) (services.revoke_token name))
          (λ r. revoke_each prefix kept names (if is_ok r then n else suc n))
      else revoke_each prefix kept names n

  unfoldable pub revoke_old_sonar_tokens : Text → Text → Text → Run (World S) (Unit {0})
  unfolding revoke_each failed_if
  revoke_old_sonar_tokens owner repo kept = reading services.list_token_names >>= λ names.
      revoke_each (token_prefix owner repo) kept names 0 >>= λ n w. (failed_if n, w)

  unfoldable pub renew_parts :
      Text → Text → Text → ℕ → ℕ → Option (Text × Text) → Run (World S) Renewal
  unfolding revoke_old_sonar_tokens expiry_of
  renew_parts secret repo stamp at ttl none = fail (non_retryable "InvalidRepo")
  renew_parts secret repo stamp at ttl (some (owner, name)) =
      let kept = token_name owner name stamp in
      let expiry = expiry_of at ttl in
      within "mint sonar token" (calling (mint kept) (services.mint_token kept expiry)) >>= λ token.
      within "set secret" (
        calling (set_secret owner name secret token)
          (services.set_repo_secret owner name secret token))
      >> ignore (revoke_old_sonar_tokens owner name kept)
          (λ r. pure (record { repo = repo; token_name = kept; expires_at = expiry }))

  -- One attempt with the scheduled time `at`, of which `stamp` is the text.
  unfoldable pub renew_sonar_cloud_token : Bool → Text → ℕ → ℕ → Text → Text → Run (World S) Renewal
  unfolding renew_parts
  renew_sonar_cloud_token configured secret at ttl stamp repo =
      if configured
      then renew_parts secret repo stamp at ttl (split_repo repo)
      else fail (non_retryable "SonarNotConfigured")

  renew_repo_parts : Text → Text → Option (Text × Text) → Run (World S) (Text × ℕ)
  renew_repo_parts secret repo none = fail (non_retryable "InvalidRepo")
  renew_repo_parts secret repo (some (owner, name)) =
      within "mint token" (reading (services.mint_workflow_token owner name)) >>= λ minted.
      within "set secret" (
        calling (set_secret owner name secret minted.0)
          (services.set_repo_secret owner name secret minted.0))
      >> pure (repo, minted.1)

  unfoldable pub renew_repo_token : Text → Text → Run (World S) (Text × ℕ)
  unfolding renew_repo_parts
  renew_repo_token secret repo = renew_repo_parts secret repo (split_repo repo)
