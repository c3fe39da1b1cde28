-- ===== src/OAuth/ClientTests.antt =====
-- The clients' theorems at concrete requests.
use kratos_demo.Prelude.{◌≡◌, ◌↔◌, refl, inr, some, [], String, str_append, string_comparable, ok}
use kratos_demo.Prelude.Assoc.{Map, lookup}
use kratos_demo.OAuth.Http.{Urls, Formats}
use kratos_demo.OAuth.Server.{
  Server, AuthorizeRequest, client_id, generate_token, generate_auth_code, token_handler,
  authorize_handler,
}
use kratos_demo.OAuth.Client.{Json, get_access_token}
use kratos_demo.OAuth.Client.Flow.{
  JsonText, server_net, redeem_request, get_access_token_iff, get_access_token-authorize_handler,
}

-- A writer of token answers only: what is not such an answer is read as the empty object.
abbrev fmt : Formats
fmt = record { pad6 = λ n. "000042"; hex = λ n. "2a" }

-- A body that is the object itself.
abbrev objects : JsonText
objects = record {
  Bytes = Map String Json;
  marshal = λ m. m;
  unmarshal = inr;
  reads_back = λ m. refl;
}

abbrev urls : Urls
urls = record {
  Url = String;
  Values = String;
  parse = some;
  query = λ u. "";
  set = λ v k x. str_append k x;
  encode = λ v. v;
  with_raw_query = str_append;
  render = λ u. u;
}

abbrev login : AuthorizeRequest
login = record {
  client_id_req = "client1";
  redirect_uri_req = "http://localhost:8083/callback";
  response_type = "code";
}

abbrev fresh : Server
fresh = record { auth_codes = []; tokens = [] }

get_access_token_iff_example :
    ((t : String)
      → ((get_access_token (server_net fmt objects 7) "000042" fresh).0 ≡ ok t)
        ↔ ((lookup "000042" fresh.auth_codes ≡ some client_id) × (t ≡ generate_token fmt 7)))
    × ((get_access_token (server_net fmt objects 7) "000042" fresh).1
        ≡ (token_handler fmt fresh (redeem_request fmt objects "000042") 7).0)
get_access_token_iff_example = get_access_token_iff fmt objects 7 fresh "000042"

get_access_token-authorize_handler_example :
    let s' = (authorize_handler fmt urls fresh login 42).0 in
    let end = get_access_token (server_net fmt objects 7) (generate_auth_code fmt 42) s' in
    (end.0 ≡ ok (generate_token fmt 7))
    × (lookup (generate_token fmt 7) end.1.tokens ≡ some client_id)
get_access_token-authorize_handler_example =
    get_access_token-authorize_handler fmt objects urls fresh login 42 7 refl
