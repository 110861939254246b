-- ===== src/Renewal/Sonar/Calls.antt =====
-- The calls of one attempt.
use nomad_temporal_jobs.Prelude.{
  ℕ, suc, ◌≡◌, sym, true, some, List, [], ◌∷◌, ◌++◌, map, keep, arith, append_assoc, append-nil,
}
use nomad_temporal_jobs.Prelude.Result.{ok, is_ok, Result-cases}
use nomad_temporal_jobs.Prelude.Text.{Text}
use nomad_temporal_jobs.Runner.Dispatch.{split_repo}
use nomad_temporal_jobs.Renewal.Sonar.{
  Services, World, Call, expiry_of, is_prior, token_prefix, token_name, revoke_each,
  revoke_old_sonar_tokens, renew_parts, renew_sonar_cloud_token, mint, set_secret, revoke,
}

module _ {S : Type 0} (services : Services S) where
  -- the prior tokens of the repository among those listed
  abbrev pub prior : Text → Text → List Text → List Text
  prior prefix kept names = keep (is_prior prefix kept) names

  calls-revoke_each :
      (prefix kept : Text) (names : List Text) (n : ℕ) (w : World S)
      → (revoke_each services prefix kept names n w).1.calls
        ≡ w.calls ++ map revoke (prior prefix kept names)
  unfolding revoke_each
  calls-revoke_each prefix kept [] n w = sym (append-nil w.calls)
  calls-revoke_each prefix kept (name ∷ names) n w =
      let (r, s) = services.revoke_token name w.outside in
      ground (
        arith,
        calls-revoke_each prefix kept names n w,
        calls-revoke_each prefix kept names n
            (record { outside = s; calls = w.calls ++ (revoke name ∷ []) }),
        calls-revoke_each prefix kept names (suc n)
            (record { outside = s; calls = w.calls ++ (revoke name ∷ []) }),
        append_assoc w.calls (revoke name ∷ []) (map revoke (prior prefix kept names)),
      )

  calls-revoke_old :
      (owner name kept : Text) (names : List Text) (w : World S)
      → (services.list_token_names w.outside).0 ≡ ok names
      → (revoke_old_sonar_tokens services owner name kept w).1.calls
        ≡ w.calls ++ map revoke (prior (token_prefix owner name) kept names)
  unfolding revoke_old_sonar_tokens
  calls-revoke_old owner name kept names w h =
      let w' : World S = record {
        outside = (services.list_token_names w.outside).1;
        calls = w.calls;
      } in
      ground (
        arith,
        h,
        calls-revoke_each (token_prefix owner name) kept names 0 w',
        Result-cases (revoke_each services (token_prefix owner name) kept names 0 w').0,
      )

  -- For a repository with an owner and a name, an attempt whose token is minted, whose secret is
  -- written and whose listing is answered succeeds, whatever becomes of the revocations; and it makes
  -- these calls, in this order: it mints the token, writes the secret, and revokes each listed prior
  -- token of the repository but the new one, also behind a revocation that failed.
  pub renew_sonar_cloud_token_calls :
      (secret repo stamp : Text) (at ttl : ℕ) (owner name token : Text) (names : List Text)
      (w : World S)
      → split_repo repo ≡ some (owner, name)
      → (services.mint_token (token_name owner name stamp) (expiry_of at ttl) w.outside).0
        ≡ ok token
      → is_ok (
          (services.set_repo_secret owner name secret token
            (services.mint_token (token_name owner name stamp) (expiry_of at ttl) w.outside).1).0)
        ≡ true
      → (services.list_token_names
          (services.set_repo_secret owner name secret token
            (services.mint_token (token_name owner name stamp) (expiry_of at ttl) w.outside).1).1).0
        ≡ ok names
      → (is_ok ((renew_sonar_cloud_token services true secret at ttl stamp repo w).0) ≡ true)
        × ((renew_sonar_cloud_token services true secret at ttl stamp repo w).1.calls
            ≡ w.calls
              ++ (mint (token_name owner name stamp)
                  ∷ set_secret owner name secret token
                  ∷ map revoke
                      (prior (token_prefix owner name) (token_name owner name stamp) names)))
  unfolding renew_sonar_cloud_token renew_parts
  renew_sonar_cloud_token_calls secret repo stamp at ttl owner name token names w h m f l =
      let k = token_name owner name stamp in
      let s1 = (services.mint_token k (expiry_of at ttl) w.outside).1 in
      let s2 = (services.set_repo_secret owner name secret token s1).1 in
      let made : List Call =
        (w.calls ++ (mint k ∷ [])) ++ (set_secret owner name secret token ∷ []) in
      let w2 : World S = record { outside = s2; calls = made } in
      ground (
        arith,
        h,
        m,
        f,
        calls-revoke_old owner name k names w2 l,
        append_assoc w.calls (mint k ∷ []) (set_secret owner name secret token ∷ []),
        append_assoc w.calls (mint k ∷ set_secret owner name secret token ∷ [])
            (map revoke (prior (token_prefix owner name) k names)),
      )
