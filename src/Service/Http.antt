-- ===== src/Service/Http.antt =====
-- api/helloworld/v1/greeter_http.pb.go: the route of SayHello, its handler, and the client. kratos's
-- binding of a query or of a path's variables to a message, its router and its HTTP client are
-- parameters.
use kratos_demo.Prelude.{
  ℕ, ◌≡◌, ◌≢◌, refl, ap, ◌∙◌, Option, none, some, Bool, true, List, [], ◌∷◌, String, if◌then◌else◌,
  ◌==◌, string_comparable, ok, err, panic, out_of_fuel, ◌>>=◌,
}
use kratos_demo.Prelude.Assoc.{Map}
use kratos_demo.Service.Kratos.{
  Call, I18n, Context, HelloRequest, HelloReply, Handler, Middleware, Middlewares, IsDocumented,
}
use kratos_demo.Service.Greeter.{GreeterUsecase, hello_config}
use kratos_demo.Service.Servers.{ServerConf, Server, new_http_server, middlewares_of, serve}
use kratos_demo.Service.Serving.{http_greets}

-- `url.Values`: a name may have several values.
abbrev pub Values : Type 0
Values = Map String (List String)

-- `binding.BindQuery`: the values are written into a message, or refused.
abbrev pub Binding : Type 0
Binding = Values → HelloRequest → Call HelloRequest

-- As it documents, one value for the field `name` is written to it. Of other values nothing is said
-- here: two values for a field and a name that is no path of fields are errors.
pub record IsBinding (bind : Binding) : Type 0 where
  pub binds :
      (req : HelloRequest) (name : String)
      → bind (("name", name ∷ []) ∷ []) req ≡ ok (record { name = name })

-- The router: the variables of a path that a pattern matches.
abbrev pub Router : Type 0
Router = String → String → Option Values

abbrev pub pattern : String
pattern = "/helloworld/{name}"

module _ (i : I18n) where
  pub record HttpContext : Type 0 where
    pub context : Context i
    pub query : Values
    pub vars : Values

  pub record HttpRequest : Type 0 where
    pub method : String
    pub path : String
    pub query : Values
    pub context : Context i

  abbrev pub HttpHandler : Type 0
  HttpHandler = HttpContext → Call (ℕ × HelloReply)

  pub record Route : Type 0 where
    pub method : String
    pub path : String
    pub handler : HttpHandler

  module _ (bind : Binding) where
    -- `through` is `ctx.Middleware`.
    unfoldable pub greeter_say_hello0_http_handler : Middleware i → Handler i → HttpHandler
    greeter_say_hello0_http_handler through srv ctx = do
      from_query ← bind ctx.query (record { name = "" })
      req ← bind ctx.vars from_query
      reply ← through srv ctx.context req
      ok (200, reply)

    unfoldable pub register_greeter_http_server : Middleware i → Handler i → List Route
    register_greeter_http_server through srv =
        record {
          method = "GET";
          path = pattern;
          handler = greeter_say_hello0_http_handler through srv;
        }
        ∷ []

  -- The first route with the request's method whose pattern matches its path; `none` is kratos's own
  -- answer to a request with no route.
  unfoldable pub dispatch : Router → List Route → HttpRequest → Option (Call (ℕ × HelloReply))
  dispatch router [] r = none
  dispatch router (route ∷ routes) r =
      let others = dispatch router routes r in
      if r.method == route.method
      then elim (router route.path r.path) [
        | none ↦ others
        | some vars ↦
            some (route.handler (record { context = r.context; query = r.query; vars = vars }))
      ]
      else others

-- `GreeterHTTPClientImpl`: the two library calls that it makes.
pub record Client : Type 0 where
  pub encode_url : String → HelloRequest → Bool → String
  pub invoke : String → String → Call HelloReply

unfoldable pub client_say_hello : Client → HelloRequest → Call HelloReply
client_say_hello c req = do out ← c.invoke "GET" (c.encode_url pattern req true); ok out

module _ (i : I18n) (m : Middlewares i) (bind : Binding) (router : Router) where
  -- What the HTTP server answers: the routes of its service, behind its middlewares.
  abbrev pub answer : Server i → HttpRequest i → Option (Call (ℕ × HelloReply))
  answer s =
      dispatch i router
        (register_greeter_http_server i bind (m.chain (middlewares_of i s.options)) s.greeter)

  module _ (binding : IsBinding bind) where
    -- `ctx.Result(200, reply)`.
    abbrev pub accepted : HelloReply → Call (ℕ × HelloReply)
    accepted reply = ok (200, reply)

    bind_vars :
        (bound : Call HelloRequest) (name : String) (srv : HelloRequest → Call HelloReply)
        → (do
          from_query ← bound
          req ← bind (("name", name ∷ []) ∷ []) from_query
          reply ← srv req
          ok (200, reply))
          ≡ (bound >>= λ _. srv (record { name = name }) >>= accepted)
    bind_vars (ok q) name srv = rw (binding.binds q name) refl
    bind_vars (err e) name srv = refl
    bind_vars panic name srv = refl
    bind_vars out_of_fuel name srv = refl

    -- A GET of a path whose variable is a name is answered with the binding's error, if the query does
    -- not bind, and else as the service answers that name, whatever name the query has.
    answer-serve :
        (s : Server i) (r : HttpRequest i) (name : String)
        → r.method ≡ "GET"
        → router pattern r.path ≡ some (("name", name ∷ []) ∷ [])
        → answer s r
          ≡ some (
              bind r.query (record { name = "" }) >>= λ _.
              serve i m s r.context (record { name = name }) >>= accepted)
    unfolding dispatch register_greeter_http_server greeter_say_hello0_http_handler
    answer-serve s r name g p =
        let bound = bind_vars (bind r.query (record { name = "" })) name (serve i m s r.context) in
        rw (g, p) (ap some bound)

    module _ (doc : IsDocumented i m) (uc : GreeterUsecase) (c : ServerConf) (s : Server i) where
      open i use {Bundle, load_message_file, new_bundle, new_localizer, localize}

      -- The HTTP server answers a GET with the binding's error, if the query does not bind. Else it
      -- greets, with status 200, the name in the path, whatever name the query has, in the language of
      -- the accept-language header: if the name is not "error", the message file loads and go-i18n
      -- renders the message.
      pub answer-greets :
          (r : HttpRequest i) (name : String) (b : Bundle) (header : String → String) (msg : String)
          → name ≢ "error"
          → r.method ≡ "GET"
          → router pattern r.path ≡ some (("name", name ∷ []) ∷ [])
          → load_message_file new_bundle "demosvc/active.zh.toml" ≡ some b
          → new_http_server i m c uc ≡ ok s
          → r.context.transport ≡ some header
          → localize (new_localizer b (header "accept-language")) (hello_config name) ≡ ok msg
          → answer s r
            ≡ some
                (bind r.query (record { name = "" }) >>= λ _. accepted (record { message = msg }))
      answer-greets r name b header msg n g p loaded made t rendered =
          answer-serve s r name g p
          ∙ ap (λ out. some (bind r.query (record { name = "" }) >>= λ _. out >>= accepted))
              (http_greets i m doc uc c s r.context (record { name = name }) n b header msg loaded
                made t rendered)

      -- A client that calls SayHello with such a name gets the message, if its URL is one that the
      -- server's router takes apart again and has no query, and `Invoke` hands it what the server
      -- answers.
      client_say_hello-greets :
          (client : Client) (r : HttpRequest i) (req : HelloRequest) (b : Bundle)
          (header : String → String) (msg : String)
          → req.name ≢ "error"
          → r.method ≡ "GET"
          → r.path ≡ client.encode_url pattern req true
          → router pattern (client.encode_url pattern req true)
            ≡ some (("name", req.name ∷ []) ∷ [])
          → bind r.query (record { name = "" }) ≡ ok (record { name = "" })
          → ((reply : HelloReply)
              → answer s r ≡ some (ok (200, reply))
              → client.invoke r.method r.path ≡ ok reply)
          → load_message_file new_bundle "demosvc/active.zh.toml" ≡ some b
          → new_http_server i m c uc ≡ ok s
          → r.context.transport ≡ some header
          → localize (new_localizer b (header "accept-language")) (hello_config req.name) ≡ ok msg
          → client_say_hello client req ≡ ok (record { message = msg })
      unfolding client_say_hello
      client_say_hello-greets client r req b header msg n g p routed q invoked loaded made t
            rendered =
          let answered =
            answer-greets r req.name b header msg n g (ap (router pattern) p ∙ routed) loaded made t
              rendered
            ∙ ap (λ out. some (out >>= λ _. accepted (record { message = msg }))) q in
          let got : client.invoke "GET" (client.encode_url pattern req true)
              ≡ ok (record { message = msg }) =
            rw (← g, ← p) (invoked (record { message = msg }) answered) in
          rw got refl
