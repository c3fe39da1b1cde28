-- ===== src/Service/Servers.antt =====
-- internal/server/http.go and internal/server/grpc.go. A server is what its options say.
use kratos_demo.Prelude.{
  ℕ, Option, none, some, List, [], ◌∷◌, ◌++◌, String, if◌then◌else◌, ◌==◌, string_comparable, ok,
  panic, ◌>>=◌,
}
use kratos_demo.Service.Kratos.{Call, I18n, Middleware, Middlewares, Handler}
use kratos_demo.Service.Localize.{i18n}
use kratos_demo.Service.Greeter.{GreeterUsecase, say_hello}

-- `conf.Server_HTTP` and `conf.Server_GRPC`; the timeout is in nanoseconds.
pub record Endpoint : Type 0 where
  pub network : String
  pub addr : String
  pub timeout : Option ℕ

-- `conf.Server`; a section that the configuration leaves out is a nil pointer.
pub record ServerConf : Type 0 where
  pub http : Option Endpoint
  pub grpc : Option Endpoint

module _ (i : I18n) where
  pub data ServerOption : Type 0 where
    middleware : List (Middleware i) → ServerOption
    network : String → ServerOption
    address : String → ServerOption
    timeout : ℕ → ServerOption

  pub record Server : Type 0 where
    pub options : List ServerOption
    pub greeter : Handler i

  -- `if s != "" { opts = append(opts, option(s)) }`.
  abbrev pub unless_empty : String → ServerOption → List ServerOption
  unless_empty s option = if s == "" then [] else option ∷ []

  -- The three tests on an endpoint.
  abbrev pub options_of : Endpoint → List ServerOption
  options_of e =
      unless_empty e.network (network e.network)
      ++ (unless_empty e.addr (address e.addr)
          ++ elim e.timeout [ none ↦ [] | some t ↦ timeout t ∷ [] ])

  -- A nil endpoint panics.
  unfoldable pub endpoint_options : Option Endpoint → Call (List ServerOption)
  endpoint_options none = panic
  endpoint_options (some e) = ok (options_of e)

  -- The middlewares that the options give a server.
  unfoldable pub middlewares_of : List ServerOption → List (Middleware i)
  middlewares_of [] = []
  middlewares_of (middleware ms ∷ os) = ms ++ middlewares_of os
  middlewares_of (network s ∷ os) = middlewares_of os
  middlewares_of (address s ∷ os) = middlewares_of os
  middlewares_of (timeout t ∷ os) = middlewares_of os

  module _ (m : Middlewares i) where
    unfoldable pub http_middlewares : Middleware i → List (Middleware i)
    http_middlewares localize =
        m.recovery ∷ m.tracing ∷ m.logging ∷ m.metrics ∷ localize ∷ m.validator ∷ []

    unfoldable pub grpc_middlewares : List (Middleware i)
    grpc_middlewares = m.recovery ∷ m.tracing ∷ m.logging ∷ m.metrics ∷ m.validator ∷ []

    unfoldable pub new_http_server : ServerConf → GreeterUsecase → Call Server
    new_http_server c greeter = do
      localize ← i18n i
      rest ← endpoint_options c.http
      ok (record {
        options = middleware (http_middlewares localize) ∷ rest;
        greeter = say_hello i greeter;
      })

    unfoldable pub new_grpc_server : ServerConf → GreeterUsecase → Call Server
    new_grpc_server c greeter = do
      rest ← endpoint_options c.grpc
      ok (record { options = middleware grpc_middlewares ∷ rest; greeter = say_hello i greeter })

    -- How a server answers a SayHello request.
    abbrev pub serve : Server → Handler i
    serve s = m.chain (middlewares_of s.options) s.greeter
