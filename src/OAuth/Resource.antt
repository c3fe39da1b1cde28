-- ===== src/OAuth/Resource.antt =====
-- cmd/resource/resource.go: the resource server. go-oidc's verifier is a parameter.
use text.Mathlib.Text.{starts_with}
use kratos_demo.Prelude.{
  ℕ, Option, none, some, [], String, if◌then◌else◌, not, ◌==◌, string_comparable,
}
use kratos_demo.OAuth.Gin.{Reply, trim_prefix, cors}

-- `verifier.Verify` and `idToken.Claims`; `none` is an error.
pub record Verifier : Type 1 where
  pub IdToken : Type 0
  pub Claims : Type 0
  pub verify : String → Option IdToken
  pub claims : IdToken → Option Claims

-- The method and the query parameter "token".
pub record ResourceRequest : Type 0 where
  pub method : String
  pub token : String

module _ (v : Verifier) where
  open v use {Claims, verify, claims}

  pub data Body : Type 0 where
    error : String → Body
    access_granted : (user_info : Option Claims) → Body
    empty page_not_found : Body

  abbrev pub json : ℕ → Body → Reply Body
  json status body = record { status = status; headers = []; body = body }

  -- The handler of /protected; the argument is the context's "userInfo".
  unfoldable pub protected : Option Claims → Reply Body
  protected user_info = json 200 (access_granted user_info)

  unfoldable pub verify_token_middleware :
      (Option Claims → Reply Body) → ResourceRequest → Reply Body
  verify_token_middleware next r =
      if not (starts_with r.token "Bearer ")
      then json 401 (error "Missing or invalid Authorization header")
      else elim (verify (trim_prefix r.token "Bearer ")) [
        | none ↦ json 401 (error "Invalid token")
        | some id_token ↦ elim (claims id_token) [
          | none ↦ json 500 (error "Failed to parse token claims")
          | some c ↦ next (some c)
        ]
      ]

  -- What the router answers to a request for /protected: the middlewares that `main` installs, in
  -- their order, and gin's own answer to a method with no route.
  unfoldable pub serve : ResourceRequest → Reply Body
  serve =
      cors (λ r. r.method) empty
        (λ r.
          if r.method == "GET"
          then verify_token_middleware protected r
          else json 404 page_not_found)
