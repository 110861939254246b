-- ===== src/Clients/SonarCloud/Minted.antt =====
-- What a token that SonarCloud minted is.
use nomad_temporal_jobs.Prelude.{◌≡◌, ap, ◌∙◌, arith, true, false, [], ◌++◌, Option, some}
use nomad_temporal_jobs.Prelude.Result.{Result, ok, context, then_ok, context-ok}
use nomad_temporal_jobs.Prelude.Text.{Text, codes, is_empty}
use nomad_temporal_jobs.Clients.{Response, is_success}
use nomad_temporal_jobs.Clients.SonarCloud.{
  SonarCloud, SonarRequest, do_request, answered, decoded, post, mint_form, non_empty_token,
  mint_token,
}

answered-ok :
    (decode : Text → Result Text) (resp : Response) (token : Text)
    → answered decode resp [] ≡ ok token
    → is_empty token ≡ false
    → (is_success resp.status_code ≡ true) × (decode resp.body ≡ ok token)
unfolding answered decoded is_empty
answered-ok decode resp token h k =
    ground (arith, h, k, context-ok "decode response" (decode resp.body) token)

non_empty_token-ok :
    (send : SonarRequest → Result Response) (s : SonarCloud) (t token : Text)
    → non_empty_token send s t ≡ ok token
    → (t ≡ token) × (is_empty token ≡ false)
unfolding non_empty_token
non_empty_token-ok send s t token h = ground (arith, h)

-- A token that is minted is not empty and is the one that a response with a status of success held,
-- the response to the request for a token of that name with that expiry.
pub mint_token-answered :
    (send : SonarRequest → Result Response) (s : SonarCloud) (decode : Text → Result Text)
    (name : Text) (expiry : Option Text) (token : Text)
    → mint_token send s decode name expiry ≡ ok token
    → (is_empty token ≡ false)
      × ((resp : Response) × (send (record {
        url = s.base ++ codes "/api/user_tokens/generate";
        form = some (mint_form send s name expiry);
        user = s.token;
      })
            ≡ ok resp)
          × (is_success resp.status_code ≡ true)
          × (decode resp.body ≡ ok token))
unfolding mint_token post do_request
mint_token-answered send s decode name expiry token h =
    let path = codes "/api/user_tokens/generate" in
    let form = mint_form send s name expiry in
    let (t, p, q) =
      then_ok (context "mint token" (post send s decode path form [])) (non_empty_token send s)
        token h in
    let (same, solid) = non_empty_token-ok send s t token q in
    let (resp, sent, a) =
      then_ok (send (record { url = s.base ++ path; form = some form; user = s.token }))
        (λ resp. answered decode resp []) t
        (context-ok "mint token" (post send s decode path form []) t p) in
    let (success, held) = answered-ok decode resp token (a ∙ ap ok same) solid in
    (solid, (resp, sent, success, held))
