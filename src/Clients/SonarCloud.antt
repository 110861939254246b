-- ===== src/Clients/SonarCloud.antt =====
-- The client of SonarCloud: shared/client/sonarcloud/sonarcloud.go. The requests of a client go to
-- its base address; sending one is a parameter.
pub mod Minted
use nomad_temporal_jobs.Prelude.{
  ◌≡◌, ◌≢◌, refl, arith, Bool, true, false, not, List, [], ◌∷◌, ◌++◌, Option, none, some,
  if◌then◌else◌,
}
use nomad_temporal_jobs.Prelude.Result.{
  Result, Failure, external, wrap, ok, err, context, ◌>>=◌, then_ok, context-ok,
}
use nomad_temporal_jobs.Prelude.Text.{Text, codes, is_empty, trim_right}
use nomad_temporal_jobs.Clients.{Response, is_success}

pub record SonarCloud : Type 0 where
  pub base : Text
  pub token : Text

-- A form of a POST, or none for a GET.
pub record SonarRequest : Type 0 where
  pub url : Text
  pub form : Option (List (Text × Text))
  pub user : Text

unfoldable pub new_sonar_cloud : Text → Text → SonarCloud
new_sonar_cloud base token = record {
  base = trim_right b'/' (if is_empty base then codes "https://sonarcloud.io" else base);
  token = token;
}

module _ {A : Type 0} (decode : Text → Result A) where
  -- A body that is not empty is decoded.
  unfoldable pub decoded : Text → A → Result A
  decoded body zero_value =
      let out = context "decode response" (decode body) in
      if is_empty body then ok zero_value else out

  unfoldable pub answered : Response → A → Result A
  unfolding decoded is_success
  answered resp zero_value =
      if is_success resp.status_code
      then decoded resp.body zero_value
      else err (external "sonarcloud: unexpected status")

  -- `do`: with what the caller's variable holds before
  unfoldable pub do_request : (SonarRequest → Result Response) → SonarRequest → A → Result A
  unfolding answered
  do_request send req zero_value = send req >>= λ resp. answered resp zero_value

module _ (send : SonarRequest → Result Response) (s : SonarCloud) where
  unfoldable pub post : {A : Type 0} → (Text → Result A) → Text → List (Text × Text) → A → Result A
  unfolding do_request
  post decode path form zero_value =
      do_request decode send (record { url = s.base ++ path; form = some form; user = s.token })
        zero_value

  unfoldable pub get : {A : Type 0} → (Text → Result A) → Text → A → Result A
  unfolding do_request
  get decode path zero_value =
      do_request decode send (record { url = s.base ++ path; form = none; user = s.token })
        zero_value

  -- the form of a token to mint; `expiry` is the day, none for a zero time
  unfoldable pub mint_form : Text → Option Text → List (Text × Text)
  mint_form name none = (codes "name", name) ∷ []
  mint_form name (some day) = (codes "name", name) ∷ (codes "expirationDate", day) ∷ []

  unfoldable pub non_empty_token : Text → Result Text
  non_empty_token token =
      if is_empty token then err (external "mint token: empty token in response") else ok token

  -- `decode` reads the token of a response, empty without one.
  unfoldable pub mint_token : (Text → Result Text) → Text → Option Text → Result Text
  unfolding post mint_form non_empty_token
  mint_token decode name expiry =
      context "mint token"
        (post decode (codes "/api/user_tokens/generate") (mint_form name expiry) [])
      >>= non_empty_token

  unfoldable pub revoke_token : Text → Result (Unit {0})
  unfolding post
  revoke_token name =
      context "revoke token"
        (post (λ body. ok tt) (codes "/api/user_tokens/revoke") ((codes "name", name) ∷ []) tt)

  -- `decode` reads the names of a response.
  unfoldable pub list_token_names : (Text → Result (List Text)) → Result (List Text)
  unfolding get
  list_token_names decode = context "list tokens" (get decode (codes "/api/user_tokens/search") [])
