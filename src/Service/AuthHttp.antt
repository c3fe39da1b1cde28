-- ===== src/Service/AuthHttp.antt =====
-- api/helloworld/v1/auth_http.pb.go: the two routes of Auth, their handlers, and the client. kratos's
-- binding, router, middlewares and HTTP client are parameters.
use kratos_demo.Prelude.{
  ℕ, ◌≡◌, refl, Option, none, some, Bool, true, List, [], ◌∷◌, String, string_comparable, ok, ◌>>=◌,
}
use kratos_demo.Service.Kratos.{Call}
use kratos_demo.Service.Auth.{create_auth, AuthRequest, AuthReply, request, AuthService}
use kratos_demo.Service.Http.{Router, Values}

abbrev pub operation_auth_auth_callback : String
operation_auth_auth_callback = "/api.helloworld.v1.Auth/AuthCallback"

abbrev pub operation_auth_sign_in : String
operation_auth_sign_in = "/api.helloworld.v1.Auth/SignIn"

abbrev pub login_pattern : String
login_pattern = "/helloworld/login"

abbrev pub callback_pattern : String
callback_pattern = "/helloworld/callback"

abbrev pub AuthMethod : Type 0
AuthMethod = AuthRequest create_auth → Call (AuthReply create_auth)

-- What a handler uses of its `http.Context`: the query bound to the message, and `ctx.Middleware` once
-- the operation is set.
pub record HttpContext : Type 0 where
  pub bind_query : Call (AuthRequest create_auth)
  pub through : String → AuthMethod → AuthMethod

abbrev pub HttpHandler : Type 0
HttpHandler = HttpContext → Call (ℕ × AuthReply create_auth)

unfoldable pub auth_sign_in0_http_handler : AuthService → HttpHandler
auth_sign_in0_http_handler srv ctx = do
  req ← ctx.bind_query
  reply ← ctx.through operation_auth_sign_in srv.sign_in req
  ok (200, reply)

unfoldable pub auth_auth_callback0_http_handler : AuthService → HttpHandler
auth_auth_callback0_http_handler srv ctx = do
  req ← ctx.bind_query
  reply ← ctx.through operation_auth_auth_callback srv.auth_callback req
  ok (200, reply)

pub record Route : Type 0 where
  pub path : String
  pub handler : HttpHandler

-- Both are GET routes.
abbrev pub register_auth_http_server : AuthService → List Route
register_auth_http_server srv =
    record { path = login_pattern; handler = auth_sign_in0_http_handler srv }
    ∷ record { path = callback_pattern; handler = auth_auth_callback0_http_handler srv }
    ∷ []

-- The first route whose pattern matches the path; neither handler reads the path's variables.
unfoldable pub get_auth_route :
    Router → List Route → String → HttpContext → Option (Call (ℕ × AuthReply create_auth))
get_auth_route router [] path ctx = none
get_auth_route router (route ∷ routes) path ctx =
    let others = get_auth_route router routes path ctx in
    elim (router route.path path) [ none ↦ others | some vars ↦ some (route.handler ctx) ]

-- `AuthHTTPClientImpl`: the two library calls that it makes.
pub record Client : Type 0 where
  pub encode_url : String → AuthRequest create_auth → Bool → String
  pub invoke : String → String → Call (AuthReply create_auth)

unfoldable pub http_client_auth_callback : Client → AuthMethod
http_client_auth_callback c req = do
  out ← c.invoke "GET" (c.encode_url callback_pattern req true)
  ok out

unfoldable pub http_client_sign_in : Client → AuthMethod
http_client_sign_in c req = do out ← c.invoke "GET" (c.encode_url login_pattern req true); ok out

-- A path that the callback's pattern matches, and not the login's, is answered by `AuthCallback`
-- behind the middlewares for its operation; a path that the login's matches, by `SignIn`.
get_auth_route-methods :
    (router : Router) (srv : AuthService) (ctx : HttpContext) (login callback : String)
    (vars vars' : Values)
    → ctx.bind_query ≡ ok (request create_auth)
    → router login_pattern login ≡ some vars
    → router login_pattern callback ≡ none
    → router callback_pattern callback ≡ some vars'
    → (get_auth_route router (register_auth_http_server srv) login ctx
        ≡ some (
            ctx.through operation_auth_sign_in srv.sign_in (request create_auth) >>= λ reply.
            ok (200, reply)))
      × (get_auth_route router (register_auth_http_server srv) callback ctx
          ≡ some (
              ctx.through operation_auth_auth_callback srv.auth_callback (request create_auth)
              >>= λ reply. ok (200, reply)))
unfolding get_auth_route auth_sign_in0_http_handler auth_auth_callback0_http_handler
get_auth_route-methods router srv ctx login callback vars vars' b l n c =
    (rw (l, b) refl, rw (n, c, b) refl)
