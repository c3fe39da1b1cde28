-- ===== src/OAuth/Server/Codes.antt =====
-- What the two handlers do to the authorization codes and the access tokens.
use mathlib.Core.Bool.{false}
use kratos_demo.Prelude.{
  ℕ, Bool, true, not, ◌&&◌, nat_comparable, ◌≡◌, ◌≢◌, ◌↔◌, inl, inr, none, some, String, arith,
  eq_iff, ◌==◌, string_comparable, if◌then◌else◌, Option-cases,
}
use kratos_demo.Prelude.Assoc.{lookup, delete, lookup-insert, lookup-delete}
use kratos_demo.OAuth.Http.{Response, json, redirect, Urls, Formats}
use kratos_demo.OAuth.Server.{
  Server, AuthorizeRequest, TokenRequest, client_id, client_secret, redirect_uri,
  generate_auth_code, generate_token, store_code, take_code, store_token, bad_client,
  redirect_with_code, authorize_handler, token_guard, grant, token_handler,
}

abbrev pub status : Response → ℕ
status (json code body) = code
status (redirect code location) = code

-- What POST /token asks for, by the request and the stored codes.
pub record IsRedeemable (s : Server) (r : TokenRequest) : Type 0 where
  pub grant_type : r.grant_type ≡ "authorization_code"
  pub client : r.client_id_req ≡ client_id
  pub secret : r.client_secret_req ≡ client_secret
  pub issued : lookup r.code s.auth_codes ≡ some client_id

pub token_guard-none_iff :
    (r : TokenRequest)
    → (token_guard r ≡ none) ↔ (
        (r.grant_type ≡ "authorization_code")
        × (r.client_id_req ≡ client_id)
        × (r.client_secret_req ≡ client_secret))
unfolding token_guard
token_guard-none_iff r = ground (
  arith,
  eq_iff r.grant_type "authorization_code",
  eq_iff r.client_id_req client_id,
  eq_iff r.client_secret_req client_secret,
)

guard_status : (r : TokenRequest) (e : Response) → token_guard r ≡ some e → status e ≢ 200
unfolding token_guard
guard_status r e h = ground arith

-- The guards of tokenHandler let the request pass.
abbrev pub passes : TokenRequest → Bool
passes r = elim (token_guard r) [ none ↦ true | some _ ↦ false ]

abbrev pub granted : Response → Bool
granted res = status res == 200

module _ (fmt : Formats) (s : Server) (r : TokenRequest) (draw : ℕ) where
  pub token_handler_grants :
      IsRedeemable s r
      → token_handler fmt s r draw
        ≡ grant fmt (record s { auth_codes = delete r.code s.auth_codes }) draw
  unfolding token_handler take_code
  token_handler_grants h = ground (
    arith,
    (token_guard-none_iff r).1 (h.grant_type, h.client, h.secret),
    h.issued,
    eq_iff client_id client_id,
  )

  granted-IsRedeemable : status (token_handler fmt s r draw).1 ≡ 200 → IsRedeemable s r
  unfolding token_handler take_code
  granted-IsRedeemable e = elim (Option-cases (token_guard r)) [
    | inr (refusal, g) ↦ absurd (guard_status r refusal g (rw (g, token_handler) at e))
    | inl g ↦
        let (grant_type, client, secret) = (token_guard-none_iff r).0 g in
        elim (Option-cases (lookup r.code s.auth_codes)) [
          | inl missing ↦ absurd (ground arith)
          | inr (stored, found) ↦ record {
            grant_type = grant_type;
            client = client;
            secret = secret;
            issued = ground (arith, eq_iff stored client_id);
          }
        ]
  ]

  -- POST /token answers 200 exactly when the grant type and the credentials are right and the code
  -- is one that was stored for the client.
  pub token_handler-granted_iff : (status (token_handler fmt s r draw).1 ≡ 200) ↔ IsRedeemable s r
  unfolding grant
  token_handler-granted_iff = (granted-IsRedeemable, λ h. rw (token_handler_grants h))

  -- POST /token removes the presented code once the guards have passed, and no other; it adds the
  -- new access token, for the client, exactly when it answers 200, and leaves all other tokens.
  pub token_handler_effect :
      ((c : String)
        → lookup c (token_handler fmt s r draw).0.auth_codes
          ≡ (if passes r && (r.code == c) then none else lookup c s.auth_codes))
      × ((t : String)
          → lookup t (token_handler fmt s r draw).0.tokens ≡ (
              if granted (token_handler fmt s r draw).1 && (generate_token fmt draw == t)
              then some client_id
              else lookup t s.tokens))
  unfolding token_handler take_code grant store_token token_guard
  token_handler_effect = (
    λ c. ground (arith, lookup-delete r.code c s.auth_codes, eq_iff r.code c),
    λ t. ground (arith, lookup-insert (generate_token fmt draw) t client_id s.tokens),
  )

-- The test of authorizeHandler before it issues a code.
abbrev pub authorizes : AuthorizeRequest → Bool
authorizes r = not (bad_client r) && (r.response_type == "code")

module _ (fmt : Formats) (urls : Urls) (s : Server) (r : AuthorizeRequest) (draw : ℕ) where
  -- GET /authorize stores the new code, for the client, exactly when the client id, the redirect URI
  -- and the response type are right; it touches no other code and no token.
  pub authorize_handler_effect :
      ((c : String)
        → lookup c (authorize_handler fmt urls s r draw).0.auth_codes ≡ (
            if authorizes r && (generate_auth_code fmt draw == c)
            then some client_id
            else lookup c s.auth_codes))
      × ((authorize_handler fmt urls s r draw).0.tokens ≡ s.tokens)
  unfolding authorize_handler store_code
  authorize_handler_effect = (
    λ c. ground (arith, lookup-insert (generate_auth_code fmt draw) c client_id s.auth_codes),
    ground arith,
  )

  -- It redirects with the new code exactly when that test passes, if net/url can parse the
  -- configured redirect URI.
  pub authorize_handler-redirects_iff :
      (u : urls.Url)
      → urls.parse redirect_uri ≡ some u
      → (status (authorize_handler fmt urls s r draw).1 ≡ 302) ↔ (authorizes r ≡ true)
  unfolding authorize_handler redirect_with_code
  authorize_handler-redirects_iff u e = ground (arith, e)
