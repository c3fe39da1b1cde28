-- ===== src/Service/Serving.antt =====
-- What the two servers answer to a SayHello request, through all their middlewares.
use kratos_demo.Prelude.{
  ◌≡◌, ◌≢◌, ◌∙◌, ap, Option, none, some, List, [], ◌∷◌, ◌++◌, String, arith, eq_iff,
  string_comparable, foldr, ok, err, panic, bind-ok, ok-injective, subst,
}
use kratos_demo.Service.Kratos.{
  status, unknown_request, I18n, Context, HelloRequest, Handler, Middleware, Middlewares,
  IsDocumented,
}
use kratos_demo.Service.Localize.{with_localizer, i18n, from_context}
use kratos_demo.Service.Greeter.{GreeterUsecase, user_not_found, hello_config, say_hello}
use kratos_demo.Service.Servers.{
  Endpoint, ServerConf, ServerOption, Server, middleware, endpoint_options, http_middlewares,
  grpc_middlewares, new_http_server, new_grpc_server, middlewares_of, serve,
}

module _ (i : I18n) where
  middlewares_of-endpoint_options :
      (e : Option Endpoint) (os : List (ServerOption i))
      → endpoint_options i e ≡ ok os
      → middlewares_of i os ≡ []
  unfolding endpoint_options middlewares_of
  middlewares_of-endpoint_options none os h = cc
  middlewares_of-endpoint_options (some e) os h = ground (arith, h)

module _ (i : I18n) (m : Middlewares i) (doc : IsDocumented i m) (uc : GreeterUsecase) where
  open i use {Bundle, load_message_file, new_bundle, new_localizer, localize}

  -- The middlewares that both servers begin with, round a handler.
  abbrev wrapped : Handler i → Handler i
  wrapped h = m.recovery (m.tracing (m.logging (m.metrics h)))

  module _ (h : Handler i) (ctx : Context i) (r : HelloRequest) where
    inner : m.tracing (m.logging (m.metrics h)) ctx r ≡ h ctx r
    inner =
        doc.tracing_keeps (m.logging (m.metrics h)) ctx r
        ∙ (doc.logging_keeps (m.metrics h) ctx r ∙ doc.metrics_keeps h ctx r)

    wrapped_keeps : h ctx r ≢ panic → wrapped h ctx r ≡ h ctx r
    wrapped_keeps p = doc.recovery_keeps _ ctx r (rw inner p) ∙ inner

    wrapped_recovers : h ctx r ≡ panic → wrapped h ctx r ≡ err unknown_request
    wrapped_recovers p = doc.recovers _ ctx r (inner ∙ p)

  module _ (r : HelloRequest) where
    -- With a localizer in its context the handler does not panic.
    say_hello_localized :
        (ctx : Context i) (l : i.Localizer) (msg : String)
        → ctx.localizer ≡ some l
        → r.name ≢ "error"
        → localize l (hello_config r.name) ≡ ok msg
        → say_hello i uc ctx r ≡ ok (record { message = msg })
    unfolding say_hello from_context
    say_hello_localized ctx l msg e n p = ground (arith, e, p, eq_iff r.name "error")

    say_hello_unlocalized :
        (ctx : Context i) → ctx.localizer ≡ none → r.name ≢ "error" → say_hello i uc ctx r ≡ panic
    unfolding say_hello from_context
    say_hello_unlocalized ctx e n = ground (arith, e, eq_iff r.name "error")

    say_hello_error :
        (ctx : Context i)
        → r.name ≡ "error"
        → say_hello i uc ctx r ≡ err (status user_not_found "user not found: %s" r.name)
    unfolding say_hello
    say_hello_error ctx n = ground (arith, n, eq_iff r.name "error")

  serve_chain :
      (ms : List (Middleware i)) (rest : List (ServerOption i)) (e : Option Endpoint)
      → endpoint_options i e ≡ ok rest
      → serve i m (record { options = middleware ms ∷ rest; greeter = say_hello i uc })
        ≡ foldr (λ f g. f g) (say_hello i uc) (ms ++ [])
  unfolding middlewares_of
  serve_chain ms rest e h =
      rw (serve, middlewares_of-endpoint_options i e rest h)
        (doc.chains (ms ++ []) (say_hello i uc))

  refused :
      (h : Handler i) (ctx : Context i) (r : HelloRequest)
      → r.name ≡ "error"
      → h ctx r ≡ err (status user_not_found "user not found: %s" r.name)
      → wrapped h ctx r ≡ err (status user_not_found "user not found: %s" "error")
  refused h ctx r name e =
      wrapped_keeps h ctx r (λ p. cc (e, p))
      ∙ (e ∙ ap (λ n. err (status user_not_found "user not found: %s" n)) name)

  module _ (c : ServerConf) (s : Server i) (ctx : Context i) (r : HelloRequest) where
    serve_http :
        (b : Bundle)
        → load_message_file new_bundle "demosvc/active.zh.toml" ≡ some b
        → new_http_server i m c uc ≡ ok s
        → serve i m s ctx r
          ≡ wrapped (λ c' r'. m.validator (say_hello i uc) (with_localizer i b c') r') ctx r
    unfolding new_http_server i18n http_middlewares
    serve_http b loaded made =
        let (rest, found, built) =
          bind-ok (endpoint_options i c.http) _ (rw (loaded, new_http_server, i18n) at made) in
        let ms = http_middlewares i m (λ handler c' r'. handler (with_localizer i b c') r') in
        subst
          (λ s'.
            serve i m s' ctx r
            ≡ wrapped (λ c' r'. m.validator (say_hello i uc) (with_localizer i b c') r') ctx r)
          (ok-injective built) (ap (λ h. h ctx r) (serve_chain ms rest c.http found))

    serve_grpc :
        new_grpc_server i m c uc ≡ ok s
        → serve i m s ctx r ≡ wrapped (m.validator (say_hello i uc)) ctx r
    unfolding new_grpc_server grpc_middlewares
    serve_grpc made =
        let (rest, found, built) = bind-ok (endpoint_options i c.grpc) _ made in
        subst (λ s'. serve i m s' ctx r ≡ wrapped (m.validator (say_hello i uc)) ctx r)
          (ok-injective built)
          (ap (λ h. h ctx r) (serve_chain (grpc_middlewares i m) rest c.grpc found))

    module _ (ok_name : r.name ≢ "error") where
      -- The HTTP server greets every name but "error", in the language of the accept-language header:
      -- if its message file loads and go-i18n renders the message, the middlewares put the localizer
      -- into the context, and the reply is the localized message.
      pub http_greets :
          (b : Bundle) (header : String → String) (msg : String)
          → load_message_file new_bundle "demosvc/active.zh.toml" ≡ some b
          → new_http_server i m c uc ≡ ok s
          → ctx.transport ≡ some header
          → localize (new_localizer b (header "accept-language")) (hello_config r.name) ≡ ok msg
          → serve i m s ctx r ≡ ok (record { message = msg })
      unfolding with_localizer
      http_greets b header msg loaded made t rendered =
          let handler = λ (c' : Context i) (r' : HelloRequest).
            m.validator (say_hello i uc) (with_localizer i b c') r' in
          let core : handler ctx r ≡ ok (record { message = msg }) =
            doc.validator_keeps (say_hello i uc) (with_localizer i b ctx) r
            ∙ say_hello_localized r (with_localizer i b ctx)
                (new_localizer b (header "accept-language")) msg (ground (arith, t)) ok_name
                rendered in
          serve_http b loaded made ∙ (wrapped_keeps handler ctx r (λ p. cc (core, p)) ∙ core)

      -- The gRPC server installs no localizer, so it greets no one: for every name but "error" the
      -- handler panics on the missing localizer, and the recovery middleware answers with
      -- `ErrUnknownRequest`, whatever the request's headers and the message file.
      pub grpc_greets_no_one :
          new_grpc_server i m c uc ≡ ok s
          → ctx.localizer ≡ none
          → serve i m s ctx r ≡ err unknown_request
      grpc_greets_no_one made e =
          serve_grpc made
          ∙ wrapped_recovers (m.validator (say_hello i uc)) ctx r
              (doc.validator_keeps (say_hello i uc) ctx r ∙ say_hello_unlocalized r ctx e ok_name)

      -- An HTTP request outside a server transport ends the same way.
      http_without_transport :
          (b : Bundle)
          → load_message_file new_bundle "demosvc/active.zh.toml" ≡ some b
          → new_http_server i m c uc ≡ ok s
          → ctx.transport ≡ none
          → ctx.localizer ≡ none
          → serve i m s ctx r ≡ err unknown_request
      unfolding with_localizer
      http_without_transport b loaded made t e =
          let handler = λ (c' : Context i) (r' : HelloRequest).
            m.validator (say_hello i uc) (with_localizer i b c') r' in
          serve_http b loaded made
          ∙ wrapped_recovers handler ctx r (
              doc.validator_keeps (say_hello i uc) (with_localizer i b ctx) r
              ∙ say_hello_unlocalized r (with_localizer i b ctx) (ground (arith, t, e)) ok_name)

  -- Both servers answer the name "error" with the user-not-found error, in every context. Its
  -- reason is the format text itself, and the name is its message.
  pub error_name_refused :
      (c : ServerConf) (s g : Server i) (ctx : Context i) (r : HelloRequest) (b : Bundle)
      → r.name ≡ "error"
      → load_message_file new_bundle "demosvc/active.zh.toml" ≡ some b
      → new_http_server i m c uc ≡ ok s
      → new_grpc_server i m c uc ≡ ok g
      → (serve i m s ctx r ≡ err (status user_not_found "user not found: %s" "error"))
        × (serve i m g ctx r ≡ err (status user_not_found "user not found: %s" "error"))
  error_name_refused c s g ctx r b name loaded made made_grpc =
      let http = λ (c' : Context i) (r' : HelloRequest).
        m.validator (say_hello i uc) (with_localizer i b c') r' in
      (
        serve_http c s ctx r b loaded made
            ∙ refused http ctx r name (
                doc.validator_keeps (say_hello i uc) (with_localizer i b ctx) r
                ∙ say_hello_error r (with_localizer i b ctx) name),
        serve_grpc c g ctx r made_grpc
            ∙ refused (m.validator (say_hello i uc)) ctx r name
                (doc.validator_keeps (say_hello i uc) ctx r ∙ say_hello_error r ctx name),
      )
