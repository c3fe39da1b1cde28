-- ===== src/OAuth/Tests.antt =====
-- The OAuth2 theorems at concrete requests.
use kratos_demo.Prelude.{
  ◌+◌, ◌≤◌, ◌≡◌, ◌↔◌, ◌&&◌, refl, none, some, [], ◌∷◌, String, str_append, ◌==◌, string_comparable,
  if◌then◌else◌,
}
use kratos_demo.Prelude.Assoc.{lookup, insert, delete}
use kratos_demo.OAuth.Http.{json, redirect, error, token, Urls, Formats}
use kratos_demo.OAuth.Server.{
  Server, AuthorizeRequest, TokenRequest, client_id, generate_auth_code, generate_token, store_code,
  take_code, store_token, redirect_with_code, authorize_handler, token_guard, grant, token_handler,
}
use kratos_demo.OAuth.Server.Codes.{
  status, IsRedeemable, passes, granted, token_handler-granted_iff, token_handler_effect,
}
use kratos_demo.OAuth.Server.Sessions.{
  System, start, redeem, Reach, authorize, here, next, granted-le-issued, code_single_use,
}

program : Unit {0}
unfolding lookup insert delete generate_auth_code generate_token store_code take_code store_token
    redirect_with_code authorize_handler token_guard grant token_handler
program = tt

-- One draw each: "000042" and "2a".
abbrev fmt : Formats
fmt = record { pad6 = λ n. "000042"; hex = λ n. "2a" }

abbrev urls : Urls
urls = record {
  Url = String;
  Values = String;
  parse = λ s. some s;
  query = λ u. "";
  set = λ v k x. str_append (str_append k "=") x;
  encode = λ v. v;
  with_raw_query = λ u q. str_append (str_append u "?") q;
  render = λ u. u;
}

abbrev login : AuthorizeRequest
login = record {
  client_id_req = "client1";
  redirect_uri_req = "http://localhost:8083/callback";
  response_type = "code";
}

abbrev exchange : TokenRequest
exchange = record {
  grant_type = "authorization_code";
  code = "000042";
  client_id_req = "client1";
  client_secret_req = "secret1";
}

abbrev issued : Server
issued = record { auth_codes = ("000042", "client1") ∷ []; tokens = [] }

authorize_runs :
    authorize_handler fmt urls start.server login 42
    ≡ (issued, redirect 302 "http://localhost:8083/callback?code=000042")
unfolding program
authorize_runs = refl

token_runs : token_handler fmt issued exchange 42 ≡ (
  record { auth_codes = []; tokens = ("2a", "client1") ∷ [] },
  json 200 (token "2a" "bearer" 3600),
)
unfolding program
token_runs = refl

token_refuses :
    (token_handler fmt issued (record exchange { client_secret_req = "x" }) 42
      ≡ (issued, json 401 (error "Invalid client credentials")))
    × (token_handler fmt issued (record exchange { code = "1" }) 42
        ≡ (issued, json 400 (error "Invalid or expired authorization code")))
unfolding program
token_refuses = (refl, refl)

token_handler-granted_iff_example :
    (status (token_handler fmt issued exchange 42).1 ≡ 200) ↔ IsRedeemable issued exchange
token_handler-granted_iff_example = token_handler-granted_iff fmt issued exchange 42

token_handler_effect_example :
    ((c : String)
      → lookup c (token_handler fmt issued exchange 42).0.auth_codes
        ≡ (if passes exchange && (exchange.code == c) then none else lookup c issued.auth_codes))
    × ((t : String)
        → lookup t (token_handler fmt issued exchange 42).0.tokens ≡ (
            if granted (token_handler fmt issued exchange 42).1 && (generate_token fmt 42 == t)
            then some client_id
            else lookup t issued.tokens))
token_handler_effect_example = token_handler_effect fmt issued exchange 42

abbrev after_login : System
after_login = record { server = issued; pending = 0; issued = 1; granted = 0 }

login_Reach : Reach fmt urls start after_login
unfolding program
login_Reach = next here (authorize login 42)

granted-le-issued_example : after_login.granted + after_login.pending ≤ after_login.issued
granted-le-issued_example = granted-le-issued fmt urls login_Reach

code_single_use_example :
    redeem (redeem after_login "000042") "000042" ≡ redeem after_login "000042"
code_single_use_example = code_single_use fmt urls after_login "000042" here tt
