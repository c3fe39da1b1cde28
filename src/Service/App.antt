-- ===== src/Service/App.antt =====
-- cmd/demosvc/wire_gen.go and cmd/demosvc/main.go, with internal/data/data.go. The loggers are not
-- modelled; the run of the app and the deferred calls of `main` are, as events in the order in which
-- they happen.
use kratos_demo.Prelude.{
  ◌≡◌, Option-cases, bind-ok, ok-injective, sym, ◌∙◌, ap, ◌≢◌, out_of_fuel, ◌⊎◌, inl, inr, ◌⊎◌, inl,
  inr, refl, Option, none, some, List, [], ◌∷◌, ◌++◌, arith, Outcome, ok, err, panic, ◌>>=◌,
}
use kratos_demo.Service.Kratos.{Error, Call, I18n, Middlewares}
use kratos_demo.Service.Localize.{i18n, with_localizer}
use kratos_demo.Service.Greeter.{GreeterRepo, GreeterUsecase, new_greeter_repo, say_hello}
use kratos_demo.Service.Servers.{
  middleware, options_of, Endpoint, ServerConf, Server, endpoint_options, http_middlewares,
  grpc_middlewares, new_http_server, new_grpc_server,
}

pub data Event : Type 0 where
  -- `app.Run()`, `data.NewData`'s cleanup, and `c.Close()` of the configuration.
  running closing_data closing_config : Event

module _ (i : I18n) (m : Middlewares i) where
  pub record App : Type 0 where
    pub grpc : Server i
    pub http : Server i

  -- `data.NewData`: there is no database, and its cleanup logs a line.
  unfoldable pub new_data : Call (List Event)
  new_data = ok (closing_data ∷ [])

  abbrev pub new_greeter_usecase : GreeterRepo → GreeterUsecase
  new_greeter_usecase repo = record { repo = repo }

  -- A configuration with no server section is a nil pointer, which the first server dereferences.
  unfoldable pub wire_app : Option ServerConf → Call (App × List Event)
  wire_app none = panic
  wire_app (some conf_server) = do
    cleanup ← new_data
    let greeter_usecase = new_greeter_usecase new_greeter_repo
    grpc_server ← new_grpc_server i m conf_server greeter_usecase
    http_server ← new_http_server i m conf_server greeter_usecase
    ok (record { grpc = grpc_server; http = http_server }, cleanup)

  -- The calls of `main` outside the repository: `c.Load()`, `c.Scan(&bc)` and `app.Run()`.
  pub record Environment : Type 0 where
    pub load : Outcome Error (Unit {0})
    pub scan : Outcome Error (Option ServerConf)
    pub run : App → Outcome Error (Unit {0})

  -- `if err != nil { panic(err) }`.
  abbrev pub must : {A : Type 0} → Outcome Error A → Outcome Error A
  must (ok a) = ok a
  must _ = panic

  -- `main` after `wireApp`: the cleanup is deferred.
  abbrev pub run_app : Environment → App × List Event → List Event × Outcome Error (Unit {0})
  run_app env (app, cleanup) = (running ∷ cleanup ++ closing_config ∷ [], must (env.run app))

  abbrev pub startup : Environment → Outcome Error (App × List Event)
  startup env = must env.load >>= λ _. must env.scan >>= λ bc. must (wire_app bc)

  -- `main` from `c.Load()` on: what it ran and what its deferred calls did, and how it ended.
  unfoldable pub main : Environment → List Event × Outcome Error (Unit {0})
  main env = elim (startup env) [ ok wired ↦ run_app env wired | _ ↦ (closing_config ∷ [], panic) ]

  -- The configuration names both servers, and the message file loads.
  abbrev pub IsWirable : Option ServerConf → Type 0
  IsWirable none = ⊥
  IsWirable (some c) =
      ((e : Endpoint) × (c.http ≡ some e))
      × ((e : Endpoint) × (c.grpc ≡ some e))
      × ((b : i.Bundle) × (i.load_message_file i.new_bundle "demosvc/active.zh.toml" ≡ some b))

  abbrev pub Wiring : Option ServerConf → Call (App × List Event) → Type 0
  Wiring conf r =
      ((a : App) × (r ≡ ok (a, closing_data ∷ [])) × IsWirable conf)
      ⊎ ((¬ IsWirable conf) × (r ≡ panic))

  module _ (c : ServerConf) (uc : GreeterUsecase) where
    made_grpc :
        (e : Endpoint)
        → c.grpc ≡ some e
        → new_grpc_server i m c uc
          ≡ ok (record {
            options = middleware (grpc_middlewares i m) ∷ options_of i e;
            greeter = say_hello i uc;
          })
    unfolding new_grpc_server endpoint_options
    made_grpc e h = rw (h, new_grpc_server, endpoint_options)

    made_http :
        (e : Endpoint) (b : i.Bundle)
        → c.http ≡ some e
        → i.load_message_file i.new_bundle "demosvc/active.zh.toml" ≡ some b
        → new_http_server i m c uc
          ≡ ok (record {
            options =
                middleware
                  (http_middlewares i m (λ handler ctx req. handler (with_localizer i b ctx) req))
                ∷ options_of i e;
            greeter = say_hello i uc;
          })
    unfolding new_http_server endpoint_options i18n
    made_http e b h f = rw (f, h, new_http_server, endpoint_options, i18n)

    refused_grpc : c.grpc ≡ none → new_grpc_server i m c uc ≡ panic
    unfolding new_grpc_server endpoint_options
    refused_grpc h = rw (h, new_grpc_server, endpoint_options)

    refused_http :
        (c.http ≡ none) ⊎ (i.load_message_file i.new_bundle "demosvc/active.zh.toml" ≡ none)
        → new_http_server i m c uc ≡ panic
    unfolding new_http_server endpoint_options i18n
    refused_http h = ground (arith, h)

  wires :
      (c : ServerConf) {g h : Server i}
      → new_grpc_server i m c (new_greeter_usecase new_greeter_repo) ≡ ok g
      → new_http_server i m c (new_greeter_usecase new_greeter_repo) ≡ ok h
      → wire_app (some c) ≡ ok (record { grpc = g; http = h }, closing_data ∷ [])
  unfolding wire_app new_data
  wires c p q = rw (p, q)

  -- `wireApp` builds an app exactly when the configuration has both server sections and the message
  -- file of the localizer loads; otherwise it panics.
  pub wire_app-Wiring : (conf : Option ServerConf) → Wiring conf (wire_app conf)
  unfolding wire_app new_data
  wire_app-Wiring none = inr (λ w. w, refl)
  wire_app-Wiring (some c) =
      let uc = new_greeter_usecase new_greeter_repo in
      elim (Option-cases c.grpc) [
        | inl g ↦ inr (λ w. cc (g, w.1.1), rw (refused_grpc c uc g))
        | inr (e, g) ↦ elim (Option-cases c.http) [
          | inl h ↦ inr (λ w. cc (h, w.0.1), rw (made_grpc c uc e g, refused_http c uc (inl h)))
          | inr (d, h) ↦
              elim (Option-cases (i.load_message_file i.new_bundle "demosvc/active.zh.toml")) [
                | inl f ↦
                    inr (λ w. cc (f, w.2.1), rw (made_grpc c uc e g, refused_http c uc (inr f)))
                | inr (b, f) ↦ inl (
                  _,
                  wires c (made_grpc c uc e g) (made_http c uc d b h f),
                  ((d, h), (e, g), (b, f)),
                )
              ]
        ]
      ]

  must-ok : {A : Type 0} (r : Outcome Error A) (a : A) → must r ≡ ok a → r ≡ ok a
  must-ok (ok b) a h = h
  must-ok (err e) a h = cc
  must-ok panic a h = cc
  must-ok out_of_fuel a h = cc

  wired_cleanup :
      (env : Environment) (a : App) (es : List Event)
      → startup env ≡ ok (a, es)
      → es ≡ closing_data ∷ []
  wired_cleanup env a es h =
      let (_, _, scanned) = bind-ok (must env.load) _ h in
      let (conf, _, wired) = bind-ok (must env.scan) (λ bc. must (wire_app bc)) scanned in
      let made = must-ok (wire_app conf) (a, es) wired in
      elim (wire_app-Wiring conf) [
        | inl (b, built, _) ↦ ap (λ p. p.1) (ok-injective (sym made ∙ built))
        | inr (_, panicked) ↦ cc (made, panicked)
      ]

  -- The configuration loads and scans, and the app is wired from what it holds.
  abbrev pub Started : Environment → App → Type 0
  Started env a =
      (env.load ≡ ok tt)
      × ((conf : Option ServerConf) × (env.scan ≡ ok conf)
          × (wire_app conf ≡ ok (a, closing_data ∷ [])))

  -- Each way in which a run of `main` ends: the events, and the value or the panic.
  abbrev pub Ending : Environment → Type 0
  Ending env =
      ((a : App) × Started env a
        × (((env.run a ≡ ok tt)
              × (main env ≡ (running ∷ closing_data ∷ closing_config ∷ [], ok tt)))
            ⊎ ((env.run a ≢ ok tt)
                × (main env ≡ (running ∷ closing_data ∷ closing_config ∷ [], panic)))))
      ⊎ (((a : App) → ¬ Started env a) × (main env ≡ (closing_config ∷ [], panic)))

  Started-startup :
      (env : Environment) (a : App) → Started env a → startup env ≡ ok (a, closing_data ∷ [])
  Started-startup env a (l, (conf, s, w)) = rw (l, s, w) refl

  startup-Started :
      (env : Environment) (a : App) (es : List Event) → startup env ≡ ok (a, es) → Started env a
  startup-Started env a es h =
      let (u, loaded, scanned) = bind-ok (must env.load) _ h in
      let (conf, found, wired) = bind-ok (must env.scan) (λ bc. must (wire_app bc)) scanned in
      let made = must-ok (wire_app conf) (a, es) wired in
      (
        must-ok env.load tt loaded,
        (conf, must-ok env.scan conf found, made ∙ ap (λ l. ok (a, l)) (wired_cleanup env a es h)),
      )

  must-cases :
      (r : Outcome Error (Unit {0}))
      → ((r ≡ ok tt) × (must r ≡ ok tt)) ⊎ ((r ≢ ok tt) × (must r ≡ panic))
  must-cases (ok u) = inl (refl, refl)
  must-cases (err e) = inr (λ h. cc h, refl)
  must-cases panic = inr (λ h. cc h, refl)
  must-cases out_of_fuel = inr (λ h. cc h, refl)

  main_runs :
      (env : Environment) (a : App) (es : List Event)
      → startup env ≡ ok (a, es)
      → main env ≡ (running ∷ closing_data ∷ closing_config ∷ [], must (env.run a))
  unfolding main
  main_runs env a es h =
      let e : es ≡ closing_data ∷ [] = wired_cleanup env a es h in rw (h, main) (rw e)

  main_ends :
      (env : Environment) (r : Outcome Error (App × List Event)) → startup env ≡ r → Ending env
  unfolding main
  main_ends env (ok (a, es)) h = elim (must-cases (env.run a)) [
    | inl (k, m) ↦ inl (a, startup-Started env a es h, inl (k, rw m at (main_runs env a es h)))
    | inr (k, m) ↦ inl (a, startup-Started env a es h, inr (k, rw m at (main_runs env a es h)))
  ]
  main_ends env (err e) h = inr (λ a p. cc (h, Started-startup env a p), rw (h, main))
  main_ends env panic h = inr (λ a p. cc (h, Started-startup env a p), rw (h, main))
  main_ends env out_of_fuel h = inr (λ a p. cc (h, Started-startup env a p), rw (h, main))

  -- `main` closes the configuration on every path, last. If the configuration loads and scans and the
  -- app is wired, it runs the app, closes the data resources after that, and ends as the run does, with
  -- an error turned into a panic; if loading, scanning or wiring fails it panics and runs nothing.
  pub main_closes : (env : Environment) → Ending env
  main_closes env = main_ends env (startup env) refl
