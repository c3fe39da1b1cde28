-- ===== src/OAuth/Protected.antt =====
-- What a request for /protected is answered, and when the relying party's callback redirects
-- (cmd/resource/resource.go, cmd/oauth/server/server.go).
use text.Mathlib.Text.{starts_with}
use kratos_demo.Prelude.{
  ◌≡◌, ◌↔◌, refl, ap, true, false, none, some, [], ◌∷◌, String, str_append, arith, ◌==◌,
  string_comparable, eq_iff, Bool-cases, Option-cases, ◌⊎◌, inl, inr,
}
use kratos_demo.OAuth.Gin.{Reply, trim_prefix, cors_headers, cors}
use kratos_demo.OAuth.Relying.{
  Provider, Token, Result, ok, err, client_id, resource_uri, handle_callback, location,
}
use kratos_demo.OAuth.Resource.{
  Verifier, ResourceRequest, Body, access_granted, serve, protected, verify_token_middleware,
}

module _ (v : Verifier) where
  open v use {Claims, verify, claims}

  abbrev pub granted : Claims → Reply (Body v)
  granted c = record { status = 200; headers = cors_headers; body = access_granted (some c) }

  -- The request is a GET whose query parameter "token" is "Bearer " and a token that the verifier
  -- takes and whose claims decode to `c`.
  abbrev pub IsAuthorized : ResourceRequest → Claims → Type 0
  IsAuthorized r c =
      (r.method ≡ "GET")
      × (starts_with r.token "Bearer " ≡ true)
      × ((id_token : v.IdToken) × (verify (trim_prefix r.token "Bearer ") ≡ some id_token)
          × (claims id_token ≡ some c))

  IsAuthorized-granted :
      (r : ResourceRequest) (c : Claims) → IsAuthorized r c → serve v r ≡ granted c
  unfolding serve cors verify_token_middleware protected
  IsAuthorized-granted r c (m, s, (id_token, t, u)) = rw (m, s, t, u) refl

  -- A request for /protected is answered 200 with the claims `c` exactly when it is authorized.
  pub serve-granted_iff :
      (r : ResourceRequest) (c : Claims) → (serve v r ≡ granted c) ↔ IsAuthorized r c
  unfolding serve cors verify_token_middleware protected
  serve-granted_iff r c = (
    λ h. ground (arith, h, eq_iff r.method "GET", eq_iff r.method "OPTIONS"),
    IsAuthorized-granted r c,
  )

-- The exchange of the code succeeds with an ID token that verifies.
abbrev pub IsLoggedIn : Provider → String → Token → String → Type 0
IsLoggedIn p code token id_token =
    ((code == "") ≡ false)
    × (p.exchange code ≡ ok token)
    × (token.id_token ≡ some id_token)
    × (p.verify client_id id_token ≡ none)

IsLoggedIn-redirects :
    (p : Provider) (code : String) (token : Token) (id_token : String)
    → IsLoggedIn p code token id_token
    → handle_callback p code ≡ record {
      status = 302;
      headers = ("Authorization", str_append "Bearer " id_token) ∷ [];
      body = location (str_append resource_uri (str_append "?token=Bearer " token.access_token));
    }
unfolding handle_callback
IsLoggedIn-redirects p code token id_token (a, b, c, d) = rw (a, b, c, d) refl

Result-cases : {A : Type 0} (r : Result A) → ((a : A) × (r ≡ ok a)) ⊎ ((e : String) × (r ≡ err e))
Result-cases (ok a) = inl (a, refl)
Result-cases (err e) = inr (e, refl)

redirects-IsLoggedIn :
    (p : Provider) (code : String)
    → (handle_callback p code).status ≡ 302
    → (token : Token) × (id_token : String) × IsLoggedIn p code token id_token
unfolding handle_callback
redirects-IsLoggedIn p code h = elim (Bool-cases (code == "")) [
  | inl a ↦ absurd (ground (arith, h, a))
  | inr a ↦ elim (Result-cases (p.exchange code)) [
    | inr (e, b) ↦ absurd (ground (arith, h, a, b))
    | inl (token, b) ↦ elim (Option-cases token.id_token) [
      | inl d ↦ absurd (ground (arith, h, a, b, d))
      | inr (id_token, d) ↦ elim (Option-cases (p.verify client_id id_token)) [
        | inl e ↦ (token, id_token, (a, b, d, e))
        | inr (failed, e) ↦ absurd (ground (arith, h, a, b, d, e))
      ]
    ]
  ]
]

pub redirects_iff :
    (p : Provider) (code : String)
    → ((handle_callback p code).status ≡ 302)
      ↔ ((token : Token) × (id_token : String) × IsLoggedIn p code token id_token)
redirects_iff p code = (
  redirects-IsLoggedIn p code,
  λ (token, id_token, h). ap (λ r. r.status) (IsLoggedIn-redirects p code token id_token h),
)
