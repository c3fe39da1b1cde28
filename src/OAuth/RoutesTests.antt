-- ===== src/OAuth/RoutesTests.antt =====
-- The relying party's router with a provider that knows one code.
use kratos_demo.Prelude.{◌≡◌, ◌↔◌, refl, none, some, if◌then◌else◌, ◌==◌, string_comparable}
use kratos_demo.OAuth.Gin.{cors}
use kratos_demo.OAuth.Relying.{Provider, Token, ok, err, tokens}
use kratos_demo.OAuth.Routes.{Request, handled, serve, route, IsTokenRequest, serve-tokens_iff}

abbrev issued : Token
issued = record { access_token = "at"; refresh_token = "rt"; expiry = 9; id_token = some "it" }

abbrev provider : Provider
provider = record {
  auth_code_url = λ state. state;
  exchange = λ code. if code == "c1" then ok issued else err "invalid_grant";
  verify = λ client token. if token == "it" then none else some "malformed jwt";
}

abbrev request : Request
request = record {
  method = "POST";
  path = "/token";
  code = "";
  bound = some ("authorization_code", "c1");
}

preflight : (serve provider (record request { method = "OPTIONS" })).status ≡ 204
unfolding serve cors
preflight = refl

wrong_method : (serve provider (record request { method = "PUT" })).status ≡ 404
unfolding serve cors route
wrong_method = refl

serve-tokens_iff_example :
    ((serve provider request).body ≡ handled (tokens "at" "rt" 9))
    ↔ IsTokenRequest provider request "at" "rt" 9
serve-tokens_iff_example = serve-tokens_iff provider request "at" "rt" 9
