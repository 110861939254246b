-- ===== src/Renewal/Sonar/Retry.antt =====
-- What a repeated attempt meets: the name of the token is made of the scheduled time, which the
-- attempts of one activity share.
use nomad_temporal_jobs.Prelude.{
  ℕ, zero, suc, ◌≡◌, ap, sym, subst, ◌∙◌, true, false, Option, some, arith,
}
use nomad_temporal_jobs.Prelude.Result.{Result, ok, is_ok, Result-cases}
use nomad_temporal_jobs.Prelude.Text.{Text}
use nomad_temporal_jobs.Runner.Dispatch.{split_repo}
use nomad_temporal_jobs.Renewal.Sonar.{
  Services, World, expiry_of, token_name, renew_parts, renew_sonar_cloud_token,
}

-- SonarCloud, by what `MintToken` says of it: a token that was minted is there, minting a name that
-- is there fails, and minting removes none; and GitHub's secrets do not touch it.
pub record IsSonar {S : Type 0} (services : Services S) (there : S → Text → Type 0) : Type 0 where
  pub minted :
      (name : Text) (e : Option ℕ) (s : S)
      → is_ok ((services.mint_token name e s).0) ≡ true
      → there (services.mint_token name e s).1 name
  pub unique :
      (name : Text) (e : Option ℕ) (s : S)
      → there s name
      → is_ok ((services.mint_token name e s).0) ≡ false
  pub mint_keeps :
      (name other : Text) (e : Option ℕ) (s : S)
      → there s other
      → there (services.mint_token name e s).1 other
  pub secret_apart :
      (owner repo secret token name : Text) (s : S)
      → there s name
      → there (services.set_repo_secret owner repo secret token s).1 name

module _ {S : Type 0} (services : Services S) (there : S → Text → Type 0)
    (laws : IsSonar services there) where
  -- With its token there, an attempt for the same scheduled time fails.
  renew_parts-there :
      (secret repo stamp : Text) (at ttl : ℕ) (owner name : Text) (w : World S)
      → there w.outside (token_name owner name stamp)
      → is_ok ((renew_parts services secret repo stamp at ttl (some (owner, name)) w).0) ≡ false
  unfolding renew_parts
  renew_parts-there secret repo stamp at ttl owner name w h = ground (
    arith,
    laws.unique (token_name owner name stamp) (expiry_of at ttl) w.outside h,
    Result-cases (services.mint_token (token_name owner name stamp) (expiry_of at ttl) w.outside).0,
  )

  -- the outcome of the two calls that an attempt stands on
  abbrev minting : Text → ℕ → ℕ → World S → Result Text × S
  minting kept at ttl w = services.mint_token kept (expiry_of at ttl) w.outside

  there_after_secret :
      (secret repo stamp : Text) (at ttl : ℕ) (owner name token : Text) (w : World S)
      → (minting (token_name owner name stamp) at ttl w).0 ≡ ok token
      → is_ok (
          (services.set_repo_secret owner name secret token
            (minting (token_name owner name stamp) at ttl w).1).0)
        ≡ false
      → there
          (renew_parts services secret repo stamp at ttl (some (owner, name)) w).1.outside
          (token_name owner name stamp)
  unfolding renew_parts
  there_after_secret secret repo stamp at ttl owner name token w m f =
      let s1 = (minting (token_name owner name stamp) at ttl w).1 in
      let kept =
        laws.secret_apart owner name secret token (token_name owner name stamp) s1
          (laws.minted (token_name owner name stamp) (expiry_of at ttl) w.outside (ap is_ok m)) in
      ground (arith, m, f, kept)

  there_after_failed_mint :
      (secret repo stamp : Text) (at ttl : ℕ) (owner name : Text) (w : World S)
      → there w.outside (token_name owner name stamp)
      → there
          (renew_parts services secret repo stamp at ttl (some (owner, name)) w).1.outside
          (token_name owner name stamp)
  unfolding renew_parts
  there_after_failed_mint secret repo stamp at ttl owner name w h = ground (
    arith,
    laws.unique (token_name owner name stamp) (expiry_of at ttl) w.outside h,
    laws.mint_keeps (token_name owner name stamp) (token_name owner name stamp) (expiry_of at ttl)
        w.outside h,
    Result-cases (services.mint_token (token_name owner name stamp) (expiry_of at ttl) w.outside).0,
  )

module _ {S : Type 0} (services : Services S) (secret repo stamp : Text) (at ttl : ℕ) where
  -- the state behind n more attempts of the activity
  abbrev pub behind : ℕ → World S → World S
  behind zero w = w
  behind (suc n) w = behind n (renew_sonar_cloud_token services true secret at ttl stamp repo w).1

module _ {S : Type 0} (services : Services S) (there : S → Text → Type 0)
    (laws : IsSonar services there) where
  parts :
      (secret repo stamp : Text) (at ttl : ℕ) (owner name : Text) (w : World S)
      → split_repo repo ≡ some (owner, name)
      → renew_sonar_cloud_token services true secret at ttl stamp repo w
        ≡ renew_parts services secret repo stamp at ttl (some (owner, name)) w
  unfolding renew_sonar_cloud_token
  parts secret repo stamp at ttl owner name w h =
      ap (λ q. renew_parts services secret repo stamp at ttl q w) h

  stuck :
      (secret repo stamp : Text) (at ttl : ℕ) (owner name : Text) (n : ℕ) (w : World S)
      → split_repo repo ≡ some (owner, name)
      → there w.outside (token_name owner name stamp)
      → is_ok (
          (renew_sonar_cloud_token services true secret at ttl stamp repo
            (behind services secret repo stamp at ttl n w)).0)
        ≡ false
  stuck secret repo stamp at ttl owner name zero w h k =
      ap (λ r. is_ok r.0) (parts secret repo stamp at ttl owner name w h)
      ∙ renew_parts-there services there laws secret repo stamp at ttl owner name w k
  stuck secret repo stamp at ttl owner name (suc n) w h k =
      stuck secret repo stamp at ttl owner name n _ h (
        subst (λ r. there r.1.outside (token_name owner name stamp))
          (sym (parts secret repo stamp at ttl owner name w h))
          (there_after_failed_mint services there laws secret repo stamp at ttl owner name w k))

  -- When an attempt mints the token and then fails to write the secret, every later attempt with the
  -- same scheduled time fails, however often it is made and whatever GitHub answers then, as long as
  -- SonarCloud refuses a name that is there.
  pub renew_sonar_cloud_token_stuck :
      (secret repo stamp : Text) (at ttl : ℕ) (owner name token : Text) (w : World S) (n : ℕ)
      → split_repo repo ≡ some (owner, name)
      → (services.mint_token (token_name owner name stamp) (expiry_of at ttl) w.outside).0
        ≡ ok token
      → is_ok (
          (services.set_repo_secret owner name secret token
            (services.mint_token (token_name owner name stamp) (expiry_of at ttl) w.outside).1).0)
        ≡ false
      → is_ok (
          (renew_sonar_cloud_token services true secret at ttl stamp repo
            (behind services secret repo stamp at ttl (suc n) w)).0)
        ≡ false
  renew_sonar_cloud_token_stuck secret repo stamp at ttl owner name token w n h m f =
      stuck secret repo stamp at ttl owner name n _ h (
        subst (λ r. there r.1.outside (token_name owner name stamp))
          (sym (parts secret repo stamp at ttl owner name w h))
          (there_after_secret services there laws secret repo stamp at ttl owner name token w m f))
