-- ===== src/Service/Tests.antt =====
-- The theorems on the service, over a message catalogue that has one message and the middlewares
-- that do just what is documented.
use kratos_demo.Prelude.{
  ◌≡◌, refl, Option, none, some, List, [], ◌∷◌, String, str_append, arith, eq_iff, foldr,
  if◌then◌else◌, ◌==◌, string_comparable, ok, err, panic,
}
use kratos_demo.Service.Kratos.{
  unknown_request, status, Call, HelloRequest, I18n, Context, Handler, Middlewares, IsDocumented,
}
use kratos_demo.Service.Localize.{with_localizer, i18n, from_context}
use kratos_demo.Service.Greeter.{GreeterUsecase, new_greeter_repo, say_hello}
use kratos_demo.Service.Servers.{
  Endpoint, ServerConf, Server, endpoint_options, middlewares_of, http_middlewares,
  grpc_middlewares, new_http_server, new_grpc_server, serve, options_of, middleware,
}
use kratos_demo.Service.Grpc.{answer_grpc, grpc_greets_none}
use kratos_demo.Service.Http.{Binding, IsBinding, Router, HttpRequest, answer, answer-greets}
use kratos_demo.Prelude.Assoc.{lookup}
use kratos_demo.Service.App.{
  Environment, running, closing_data, closing_config, Ending, new_data, wire_app, main, main_closes,
}

abbrev catalogue : I18n
catalogue = record {
  Bundle = String;
  Localizer = String;
  new_bundle = "";
  load_message_file = λ b path. some path;
  new_localizer = λ b lang. lang;
  localize = λ l c. ok (str_append (str_append "Hello " c.name) l);
}

abbrev recovery : Handler catalogue → Handler catalogue
recovery h ctx r = elim (h ctx r) [ panic ↦ err unknown_request | other ↦ other ]

abbrev library : Middlewares catalogue
library = record {
  recovery = recovery;
  tracing = λ h. h;
  logging = λ h. h;
  metrics = λ h. h;
  validator = λ h. h;
  chain = λ ms h. foldr (λ f g. f g) h ms;
}

library-IsDocumented : IsDocumented catalogue library
library-IsDocumented = record {
  chains = λ ms h. refl;
  recovers = λ h ctx r e. ground (arith, e);
  recovery_keeps = λ h ctx r e. ground arith;
  tracing_keeps = λ h ctx r. refl;
  logging_keeps = λ h ctx r. refl;
  metrics_keeps = λ h ctx r. refl;
  validator_keeps = λ h ctx r. refl;
}

abbrev endpoint : Endpoint
endpoint = record { network = ""; addr = "0.0.0.0:8000"; timeout = some 1_000_000_000 }

-- configs/config.yaml
abbrev conf : ServerConf
conf = record { http = some endpoint; grpc = some endpoint }

abbrev usecase : GreeterUsecase
usecase = record { repo = new_greeter_repo }

abbrev request : Context catalogue
request = record { transport = some (λ key. key); localizer = none }

abbrev http_server : Server catalogue
http_server = record {
  options =
      middleware (
        http_middlewares catalogue library
          (λ handler ctx req. handler (with_localizer catalogue "demosvc/active.zh.toml" ctx) req))
      ∷ options_of catalogue endpoint;
  greeter = say_hello catalogue usecase;
}

abbrev grpc_server : Server catalogue
grpc_server = record {
  options = middleware (grpc_middlewares catalogue library) ∷ options_of catalogue endpoint;
  greeter = say_hello catalogue usecase;
}

http_made : new_http_server catalogue library conf usecase ≡ ok http_server
unfolding new_http_server endpoint_options i18n
http_made = refl

grpc_made : new_grpc_server catalogue library conf usecase ≡ ok grpc_server
unfolding new_grpc_server endpoint_options
grpc_made = refl

http_runs :
    serve catalogue library http_server request (record { name = "kratos" })
    ≡ ok (record { message = "Hello kratosaccept-language" })
unfolding middlewares_of http_middlewares with_localizer say_hello from_context
http_runs = refl

-- It takes one value for a name and refuses more.
bound : Option (List String) → HelloRequest → Call HelloRequest
bound none req = ok req
bound (some []) req = ok req
bound (some (name ∷ [])) req = ok (record { name = name })
bound (some (name ∷ names)) req = err (status 400 "CODEC" "too many values")

abbrev binding : Binding
binding values req = bound (lookup "name" values) req

binding-IsBinding : IsBinding binding
unfolding lookup bound
binding-IsBinding = record { binds = λ req name. refl }

-- It takes one path apart.
abbrev router : Router
router pattern path =
    if path == "/helloworld/kratos" then some (("name", "kratos" ∷ []) ∷ []) else none

abbrev get : HttpRequest catalogue
get = record {
  method = "GET";
  path = "/helloworld/kratos";
  query = ("name", "someone" ∷ []) ∷ [];
  context = request;
}

answer-greets_example :
    answer catalogue library binding router http_server get
    ≡ some (ok (200, record { message = "Hello kratosaccept-language" }))
unfolding lookup bound
answer-greets_example =
    answer-greets catalogue library binding router binding-IsBinding library-IsDocumented usecase
      conf http_server get "kratos" "demosvc/active.zh.toml" (λ key. key)
      "Hello kratosaccept-language" (ground (arith, eq_iff "kratos" "error")) refl refl refl
      http_made refl refl

grpc_greets_none_example :
    (answer_grpc catalogue library grpc_server "/helloworld.v1.Greeter/SayHello" request
        (ok (record { name = "kratos" }))
      ≡ some (err unknown_request))
    × (answer_grpc catalogue library grpc_server "/helloworld.v1.Greeter/SayHello" request
          (err (status 3 "CODEC" ""))
        ≡ some (err (status 3 "CODEC" "")))
grpc_greets_none_example =
    grpc_greets_none catalogue library library-IsDocumented usecase conf grpc_server request
      (record { name = "kratos" }) (status 3 "CODEC" "") grpc_made refl
      (ground (arith, eq_iff "kratos" "error"))

abbrev environment : Environment catalogue library
environment = record { load = ok tt; scan = ok (some conf); run = λ a. ok tt }

main_runs :
    main catalogue library environment ≡ (running ∷ closing_data ∷ closing_config ∷ [], ok tt)
unfolding main wire_app new_data new_http_server new_grpc_server endpoint_options i18n
main_runs = refl

main_closes_example : Ending catalogue library environment
main_closes_example = main_closes catalogue library environment
