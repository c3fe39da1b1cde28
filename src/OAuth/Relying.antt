-- ===== src/OAuth/Relying.antt =====
-- cmd/oauth/server/server.go: the OpenID Connect relying party. go-oidc and golang.org/x/oauth2 are
-- parameters.
use kratos_demo.Prelude.{
  ℕ, Option, none, some, [], ◌∷◌, String, format, str_append, if◌then◌else◌, not, ◌==◌,
  string_comparable,
}
use kratos_demo.OAuth.Gin.{Reply}

abbrev pub client_id : String
client_id = "my-client"

abbrev pub redirect_uri : String
redirect_uri = "http://localhost:8081/callback"

abbrev pub resource_uri : String
resource_uri = "http://localhost:8082/protected"

-- An `oauth2.Token`; its extra field "id_token" may be missing or no text.
pub record Token : Type 0 where
  pub access_token : String
  pub refresh_token : String
  pub expiry : ℕ
  pub id_token : Option String

-- The two calls of an outcome with an error text.
pub data Result (A : Type 0) : Type 0 where
  ok : A → Result A
  err : String → Result A

pub record Provider : Type 0 where
  -- `oauth2Config.AuthCodeURL(state, oauth2.AccessTypeOffline)`.
  pub auth_code_url : String → String
  -- `oauth2Config.Exchange(ctx, code)`.
  pub exchange : String → Result Token
  -- `provider.Verifier(&oidc.Config{ClientID: …}).Verify(ctx, token)`: the first text is the client.
  pub verify : String → String → Option String

pub data Body : Type 0 where
  error : String → Body
  tokens : (access_token refresh_token : String) (expiry : ℕ) → Body
  -- A redirect: the Location header and the short HTML text that http.Redirect writes with it, a link to
  -- the same URL.
  location : String → Body

abbrev pub json : ℕ → Body → Reply Body
json status body = record { status = status; headers = []; body = body }

module _ (p : Provider) where
  open p use {auth_code_url, exchange, verify}

  unfoldable pub handle_auth : Reply Body
  handle_auth = json 302 (location (auth_code_url "state-xyz"))

  unfoldable pub login : Reply Body
  login = json 302 (
      location (
        format (
          "http://127.0.0.1:5556?client_id=" ∷ client_id ∷ "&redirect_uri=" ∷ redirect_uri
          ∷ "&response_type=code&scope=openid" ∷ [])))

  -- The end of handleCallback; `failed` is the error of `Verify`, if it failed.
  abbrev pub finish_callback : Token → String → Option String → Reply Body
  finish_callback token id_token (some failed) =
      json 500 (error (str_append "Failed to verify ID token: " failed))
  finish_callback token id_token none = record {
    status = 302;
    headers = ("Authorization", str_append "Bearer " id_token) ∷ [];
    body = location (str_append resource_uri (str_append "?token=Bearer " token.access_token));
  }

  -- The argument is the query parameter "code".
  unfoldable pub handle_callback : String → Reply Body
  handle_callback code =
      if code == ""
      then json 400 (error "Authorization code not provided")
      else elim (exchange code) [
        | err e ↦ json 500 (error (str_append "Failed to exchange token: " e))
        | ok token ↦ elim token.id_token [
          | none ↦ json 500 (error "ID token not found")
          | some id_token ↦ finish_callback token id_token (verify client_id id_token)
        ]
      ]

  -- The argument is the bound JSON body, `none` where it does not bind: the grant type and the code.
  unfoldable pub handle_token : Option (String × String) → Reply Body
  handle_token none = json 400 (error "Invalid request")
  handle_token (some (grant_type, code)) =
      if not (grant_type == "authorization_code")
      then json 400 (error "Unsupported grant type")
      else elim (exchange code) [
        | err e ↦ json 500 (error (str_append "Failed to exchange token: " e))
        | ok token ↦ json 200 (tokens token.access_token token.refresh_token token.expiry)
      ]
