-- ===== src/OAuth/Routes.antt =====
-- The router of cmd/oauth/server/server.go: the middleware and the routes that `main` installs. gin
-- itself redirects a path that has a slash too many; such paths are left out.
use kratos_demo.Prelude.{
  ℕ, ◌≡◌, ◌↔◌, refl, ap, ◌⊎◌, inl, inr, Option, none, some, [], String, if◌then◌else◌, ◌==◌,
  string_comparable, eq_iff, Bool-cases, arith,
}
use kratos_demo.OAuth.Gin.{Reply, cors}
use kratos_demo.OAuth.Relying.{
  Provider, Token, Result, ok, err, Body, tokens, handle_auth, login, handle_callback, handle_token,
}

-- What a handler reads: the method, the path, the query parameter "code", and the bound JSON body.
pub record Request : Type 0 where
  pub method : String
  pub path : String
  pub code : String
  pub bound : Option (String × String)

pub data Page : Type 0 where
  handled : Body → Page
  message : String → Page
  empty page_not_found : Page

abbrev pub with_page : Reply Body → Reply Page
with_page r = record { status = r.status; headers = r.headers; body = handled r.body }

abbrev pub page : ℕ → Page → Reply Page
page status body = record { status = status; headers = []; body = body }

Result-cases : {A : Type 0} (r : Result A) → ((a : A) × (r ≡ ok a)) ⊎ ((e : String) × (r ≡ err e))
Result-cases (ok a) = inl (a, refl)
Result-cases (err e) = inr (e, refl)

module _ (p : Provider) where
  unfoldable pub get_route : Request → Reply Page
  get_route r =
      if r.path == "/auth"
      then with_page (handle_auth p)
      else (if r.path == "/login"
          then with_page (login p)
          else (if r.path == "/callback"
              then with_page (handle_callback p r.code)
              else (if r.path == "/"
                  then page 200 (message "Welcome to OAuth2 Server!")
                  else page 404 page_not_found)))

  unfoldable pub post_route : Request → Reply Page
  post_route r =
      if r.path == "/token" then with_page (handle_token p r.bound) else page 404 page_not_found

  unfoldable pub route : Request → Reply Page
  route r =
      if r.method == "GET"
      then get_route r
      else (if r.method == "POST" then post_route r else page 404 page_not_found)

  unfoldable pub serve : Request → Reply Page
  serve = cors (λ r. r.method) empty route

  abbrev Issues : Reply Page → String → String → ℕ → Type 0
  Issues r access_token refresh_token expiry =
      r.body ≡ handled (tokens access_token refresh_token expiry)

  handle_token-Issues :
      (bound : Option (String × String)) (a f : String) (e : ℕ)
      → (handle_token p bound).body ≡ tokens a f e
      → (code : String) × (bound ≡ some ("authorization_code", code))
        × ((t : Token) × (p.exchange code ≡ ok t)
            × (t.access_token ≡ a)
            × (t.refresh_token ≡ f)
            × (t.expiry ≡ e))
  unfolding handle_token
  handle_token-Issues none a f e h = absurd (cc h)
  handle_token-Issues (some (grant_type, code)) a f e h =
      elim (Bool-cases (grant_type == "authorization_code")) [
        | inr g ↦ absurd (ground (arith, g, h))
        | inl g ↦ elim (Result-cases (p.exchange code)) [
          | inr (m, k) ↦ absurd (ground (arith, g, k, h))
          | inl (t, k) ↦
              let b : tokens t.access_token t.refresh_token t.expiry ≡ tokens a f e =
                ground (arith, g, k, h) in
              (
                code,
                ap (λ x. some (x, code)) ((eq_iff grant_type "authorization_code").0 g),
                (t, k, cc b, cc b, cc b),
              )
        ]
      ]

  get_route-no_tokens : (r : Request) (a f : String) (e : ℕ) → Issues (get_route r) a f e → ⊥
  unfolding get_route handle_auth login handle_callback
  get_route-no_tokens r a f e h = absurd (ground (arith, h))

  page-no_tokens : (n : ℕ) (a f : String) (e : ℕ) → Issues (page n page_not_found) a f e → ⊥
  page-no_tokens n a f e h = absurd (cc h)

  post_route-Issues :
      (r : Request) (a f : String) (e : ℕ)
      → Issues (post_route r) a f e
      → (r.path ≡ "/token") × ((handle_token p r.bound).body ≡ tokens a f e)
  unfolding post_route
  post_route-Issues r a f e h = elim (Bool-cases (r.path == "/token")) [
    | inl g ↦
        let b : handled (handle_token p r.bound).body ≡ handled (tokens a f e) =
          ground (arith, g, h) in
        ((eq_iff r.path "/token").0 g, cc b)
    | inr g ↦ absurd (ground (arith, g, h))
  ]

  -- The request is a POST to /token whose body binds, with the right grant type and with a code that
  -- the provider exchanges for these texts.
  abbrev pub IsTokenRequest : Request → String → String → ℕ → Type 0
  IsTokenRequest r access_token refresh_token expiry =
      (r.method ≡ "POST")
      × (r.path ≡ "/token")
      × ((code : String) × (r.bound ≡ some ("authorization_code", code))
          × ((t : Token) × (p.exchange code ≡ ok t)
              × (t.access_token ≡ access_token)
              × (t.refresh_token ≡ refresh_token)
              × (t.expiry ≡ expiry)))

  serve-method :
      (r : Request) (a f : String) (e : ℕ)
      → Issues (serve r) a f e
      → (r.method ≡ "POST") × Issues (post_route r) a f e
  unfolding serve cors route
  serve-method r a f e h = elim (Bool-cases (r.method == "OPTIONS")) [
    | inl o ↦ absurd (ground (arith, o, h))
    | inr o ↦ elim (Bool-cases (r.method == "GET")) [
      | inl g ↦ absurd (get_route-no_tokens r a f e (ground (arith, o, g, h)))
      | inr g ↦ elim (Bool-cases (r.method == "POST")) [
        | inl m ↦ ((eq_iff r.method "POST").0 m, ground (arith, o, g, m, h))
        | inr m ↦ absurd (ground (arith, o, g, m, h))
      ]
    ]
  ]

  IsTokenRequest-issued :
      (r : Request) (a f : String) (e : ℕ) → IsTokenRequest r a f e → Issues (serve r) a f e
  unfolding serve cors route post_route handle_token
  IsTokenRequest-issued r a f e (m, path, (code, b, (t, k, x, y, z))) =
      rw (m, path, b, k, x, y, z) refl

  -- A JSON body with the fields access_token, refresh_token and expiry leaves the relying party's server
  -- exactly in answer to a token request that the provider honours, and they are the provider's. The
  -- redirect of /callback, which carries the access token in its Location and in its short HTML text,
  -- is no such body.
  pub serve-tokens_iff :
      (r : Request) (access_token refresh_token : String) (expiry : ℕ)
      → ((serve r).body ≡ handled (tokens access_token refresh_token expiry))
        ↔ IsTokenRequest r access_token refresh_token expiry
  serve-tokens_iff r a f e = (
    λ h.
        let (m, posted) = serve-method r a f e h in
        let (path, answered) = post_route-Issues r a f e posted in
        (m, path, handle_token-Issues r.bound a f e answered),
    IsTokenRequest-issued r a f e,
  )
