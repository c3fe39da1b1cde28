-- ===== src/GinLogin.antt =====
-- cmd/gin/gin.go: the login page of the program "gin", its middleware and its routes. gin, the
-- response writer and kratos's middlewares are parameters.
pub mod Tests
use kratos_demo.Prelude.{
  ℕ, ◌≡◌, refl, ap, ◌∙◌, Option, none, some, List, [], ◌∷◌, ◌++◌, String, format, if◌then◌else◌,
  ◌==◌, string_comparable,
}
use kratos_demo.Prelude.Assoc.{Map, lookup}

abbrev pub client_id : String
client_id = "my-client"

abbrev pub redirect_uri : String
redirect_uri = "http://localhost:8081/callback"

abbrev pub dex_auth_url : String
dex_auth_url = "http://127.0.0.1:5556/dex"

-- A kratos handler that may print; `Line` is what has been printed.
abbrev pub Handler : Type 0 → Type 0 → Type 0
Handler Req Reply = Req → List String × Reply

-- `customMiddleware`; `operation` is the server transport's, if the context has one.
unfoldable pub custom_middleware :
    {Req Reply : Type 0} → Option String → Handler Req Reply → Handler Req Reply
custom_middleware none handler req = handler req
custom_middleware (some operation) handler req =
    let (lines, reply) = handler req in (format ("operation: " ∷ operation ∷ []) ∷ lines, reply)

-- gin's router, and its response writer.
pub record Gin : Type 1 where
  pub St : Type 0
  pub match : String → String → Option (Map String String)
  pub json : ℕ → Map String String → St → St
  pub redirect : ℕ → String → St → St
  -- `kgin.Error` with `errors.Unauthorized(reason, message)`.
  pub unauthorized : String → String → St → St

-- What gin documents: a pattern with no wildcard matches itself with no parameters, and a status that
-- has been written with a body stays. `none` is a response with nothing written.
pub record IsGin (g : Gin) : Type 0 where
  pub status : g.St → Option ℕ
  pub static :
      (path : String) (params : Map String String)
      → g.match "/helloworld/login" path ≡ some params
      → params ≡ []
  pub json_writes :
      (code : ℕ) (body : Map String String) (s : g.St)
      → status s ≡ none
      → status (g.json code body s) ≡ some code
  pub redirect_keeps :
      (code written : ℕ) (url : String) (s : g.St)
      → status s ≡ some written
      → status (g.redirect code url s) ≡ some written

-- `ctx.Param`.
abbrev pub param : String → Map String String → String
param key params = elim (lookup key params) [ none ↦ "" | some v ↦ v ]

module _ (g : Gin) where
  open g use {St, match, json, redirect, unauthorized}

  abbrev pub auth_url : String
  auth_url = format (
      dex_auth_url ∷ "?client_id=" ∷ client_id ∷ "&redirect_uri=" ∷ redirect_uri
      ∷ "&response_type=code&scope=openid" ∷ [])

  unfoldable pub login : Map String String → St → St
  login params s =
      let name = param "name" params in
      let s' =
        if name == "error"
        then unauthorized "auth_error" "no authentication" s
        else json 200 (("welcome", name) ∷ []) s in
      redirect 302 auth_url s'

  -- The GET routes, in the order of `main`; `none` is gin's own answer to a path with no route.
  unfoldable pub serve : String → St → Option St
  serve path s = elim (match "/helloworld/login" path) [
    | some params ↦ some (login params s)
    | none ↦ elim (match "/helloworld/callback" path) [ some params ↦ some s | none ↦ none ]
  ]

  -- Nobody is redirected to log in: the page greets the empty name with status 200, which the redirect
  -- after it no longer changes.
  pub serve-login :
      (is : IsGin g) (path : String) (params : Map String String) (s : St)
      → match "/helloworld/login" path ≡ some params
      → is.status s ≡ none
      → (end : St) × (serve path s ≡ some end)
        × (is.status end ≡ some 200)
        × (end ≡ redirect 302 auth_url (json 200 (("welcome", "") ∷ []) s))
  unfolding serve login lookup
  serve-login is path params s h fresh =
      let e = is.static path params h in
      let answered : serve path s ≡ some (login [] s) = rw (serve, h, e) refl in
      (
        login [] s,
        answered,
        is.redirect_keeps 302 200 auth_url (json 200 (("welcome", "") ∷ []) s)
            (is.json_writes 200 (("welcome", "") ∷ []) s fresh),
        refl,
      )
