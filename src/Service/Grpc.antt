-- ===== src/Service/Grpc.antt =====
-- api/helloworld/v1/greeter_grpc.pb.go: the service description of the greeter, its handler, and the
-- client. grpc-go and kratos's interceptor are parameters.
use kratos_demo.Prelude.{
  ◌≡◌, ◌≢◌, refl, Option, none, some, List, [], ◌∷◌, String, format, if◌then◌else◌, ◌==◌,
  string_comparable, ok, err, ◌>>=◌,
}
use kratos_demo.Service.Kratos.{
  Error, unknown_request, Call, I18n, Context, HelloRequest, HelloReply, Handler, Middlewares,
  IsDocumented,
}
use kratos_demo.Service.Greeter.{GreeterUsecase}
use kratos_demo.Service.Servers.{ServerConf, Server, new_grpc_server, middlewares_of}
use kratos_demo.Service.Serving.{grpc_greets_no_one}

module _ (i : I18n) where
  -- A `grpc.UnaryServerInterceptor`; a nil one is `none`.
  abbrev pub Interceptor : Type 0
  Interceptor = Context i → HelloRequest → Handler i → Call HelloReply

  -- A `MethodDesc`'s handler; `dec` is the outcome of its decoder.
  abbrev pub MethodHandler : Type 0
  MethodHandler = Handler i → Context i → Call HelloRequest → Option Interceptor → Call HelloReply

  unfoldable pub greeter_say_hello_handler : MethodHandler
  greeter_say_hello_handler srv ctx dec interceptor = do
    req ← dec
    elim interceptor [ none ↦ srv ctx req | some through ↦ through ctx req srv ]

  pub record MethodDesc : Type 0 where
    pub method_name : String
    pub handler : MethodHandler

  pub record ServiceDesc : Type 0 where
    pub service_name : String
    pub methods : List MethodDesc

  abbrev pub greeter_service_desc : ServiceDesc
  greeter_service_desc = record {
    service_name = "helloworld.v1.Greeter";
    methods = record { method_name = "SayHello"; handler = greeter_say_hello_handler } ∷ [];
  }

  -- What `RegisterService` documents: a method answers to "/", the service's name, "/" and its own.
  -- `none` is the answer to an unknown method.
  unfoldable pub call_method :
      ServiceDesc
      → Handler i
      → Option Interceptor
      → String
      → Context i
      → Call HelloRequest
      → Option (Call HelloReply)
  call_method desc srv interceptor full_method ctx dec = find desc.methods
    where
      find : List MethodDesc → Option (Call HelloReply)
      find [] = none
      find (m ∷ ms) =
          let others = find ms in
          if format ("/" ∷ desc.service_name ∷ "/" ∷ m.method_name ∷ []) == full_method
          then some (m.handler srv ctx dec interceptor)
          else others

-- `greeterClient`: `cc.Invoke` with the full method.
unfoldable pub grpc_say_hello :
    (String → HelloRequest → Call HelloReply) → HelloRequest → Call HelloReply
grpc_say_hello invoke req = do out ← invoke "/helloworld.v1.Greeter/SayHello" req; ok out

module _ (i : I18n) (m : Middlewares i) where
  -- kratos's interceptor runs its server's middlewares round the handler.
  abbrev pub interceptor : Server i → Interceptor i
  interceptor s ctx req handler = m.chain (middlewares_of i s.options) handler ctx req

  abbrev pub answer_grpc :
      Server i → String → Context i → Call HelloRequest → Option (Call HelloReply)
  answer_grpc s = call_method i (greeter_service_desc i) s.greeter (some (interceptor s))

  module _ (doc : IsDocumented i m) (uc : GreeterUsecase) (c : ServerConf) (s : Server i) where
    -- The gRPC server greets no one: a request for any name but "error" ends in
    -- `ErrUnknownRequest`, since nothing has put a localizer into the handler's context and the
    -- handler panics on that. A request that does not decode ends in the decoder's error.
    pub grpc_greets_none :
        (ctx : Context i) (req : HelloRequest) (undecoded : Error)
        → new_grpc_server i m c uc ≡ ok s
        → ctx.localizer ≡ none
        → req.name ≢ "error"
        → (answer_grpc s "/helloworld.v1.Greeter/SayHello" ctx (ok req)
            ≡ some (err unknown_request))
          × (answer_grpc s "/helloworld.v1.Greeter/SayHello" ctx (err undecoded)
              ≡ some (err undecoded))
    unfolding call_method greeter_say_hello_handler format
    grpc_greets_none ctx req undecoded made l n =
        (rw (grpc_greets_no_one i m doc uc c s ctx req n made l) refl, refl)
