-- ===== src/OAuth/ProtectedTests.antt =====
-- The relying party's and the resource server's theorems at concrete parameters.
use kratos_demo.Prelude.{◌≡◌, ◌↔◌, refl, none, some, String, if◌then◌else◌, ◌==◌, string_comparable}
use kratos_demo.OAuth.Gin.{trim_prefix, cors}
use kratos_demo.OAuth.Relying.{Provider, Token, ok, err, handle_callback}
use kratos_demo.OAuth.Resource.{
  Verifier, ResourceRequest, serve, verify_token_middleware, protected,
}
use kratos_demo.OAuth.Protected.{granted, IsAuthorized, serve-granted_iff}

program : Unit {0}
unfolding serve cors verify_token_middleware protected trim_prefix handle_callback
program = tt

abbrev issued : Token
issued = record { access_token = "at"; refresh_token = "rt"; expiry = 9; id_token = some "it" }

-- It knows the code "c1" and takes the ID token "it" only.
abbrev provider : Provider
provider = record {
  auth_code_url = λ state. state;
  exchange = λ code. if code == "c1" then ok issued else err "invalid_grant";
  verify = λ client token. if token == "it" then none else some "malformed jwt";
}

-- It takes the access token "at" only, whose claims are its own text.
abbrev verifier : Verifier
verifier = record {
  IdToken = String;
  Claims = String;
  verify = λ t. if t == "at" then some t else none;
  claims = λ t. some t;
}

abbrev request : ResourceRequest
request = record { method = "GET"; token = "Bearer at" }

serve_runs : serve verifier request ≡ granted verifier "at"
unfolding serve cors verify_token_middleware protected trim_prefix
serve_runs = refl

serve_refuses : (serve verifier (record request { token = "at" })).status ≡ 401
unfolding serve cors verify_token_middleware
serve_refuses = refl

serve-granted_iff_example :
    (serve verifier request ≡ granted verifier "at") ↔ IsAuthorized verifier request "at"
serve-granted_iff_example = serve-granted_iff verifier request "at"
