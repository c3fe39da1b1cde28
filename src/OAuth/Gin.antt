-- ===== src/OAuth/Gin.antt =====
-- What the OpenID Connect programs use of gin and of Go's strings: a request, a response with its
-- headers, and the two text functions.
use Prim.Native.String.{len, slice}
use text.Mathlib.Text.{starts_with}
use text.Mathlib.TextPositions.{starts_with-append, slice-append_right, len-append}
use kratos_demo.Prelude.{
  ℕ, ◌≡◌, List, [], ◌∷◌, ◌++◌, String, str_append, if◌then◌else◌, ◌==◌, string_comparable,
}

pub record Reply (Body : Type 0) : Type 0 where
  pub status : ℕ
  pub headers : List (String × String)
  pub body : Body

-- `strings.TrimPrefix`.
unfoldable pub trim_prefix : String → String → String
trim_prefix s prefix = if starts_with s prefix then slice s (len prefix) (len s) else s

pub trim_prefix-append : (prefix t : String) → trim_prefix (str_append prefix t) prefix ≡ t
unfolding trim_prefix
trim_prefix-append prefix t =
    rw (starts_with-append prefix t, len-append prefix t) (slice-append_right prefix t)

-- `Cors()` of cmd/resource/resource.go and of cmd/oauth/server/server.go, which are the same: the
-- headers, and an early end of a preflight request.
abbrev pub cors_headers : List (String × String)
cors_headers =
    ("Access-Control-Allow-Origin", "*")
    ∷ ("Access-Control-Allow-Methods", "GET, POST, PUT, DELETE, OPTIONS")
    ∷ ("Access-Control-Allow-Headers", "Content-Type, Authorization, X-Requested-With")
    ∷ ("Access-Control-Expose-Headers", "Content-Length, Content-Type")
    ∷ ("Access-Control-Allow-Credentials", "true")
    ∷ []

unfoldable pub cors {ℓ} :
    {R : Type ℓ} {Body : Type 0} → (R → String) → Body → (R → Reply Body) → R → Reply Body
cors method empty next r =
    if method r == "OPTIONS"
    then record { status = 204; headers = cors_headers; body = empty }
    else (let reply = next r in record reply { headers = cors_headers ++ reply.headers })
