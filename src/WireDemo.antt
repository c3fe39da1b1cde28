-- ===== src/WireDemo.antt =====
-- cmd/wiredemo/main.go and wire_gen.go: three constructors that wire puts together.
use kratos_demo.Prelude.{◌≡◌, refl, ◌⊎◌, inl, inr, String, format, [], ◌∷◌}

pub record Database : Type 0 where
  pub connection_string : String

pub record Service : Type 0 where
  pub db : Database

pub record Application : Type 0 where
  pub service : Service

abbrev pub new_database : Database
new_database = record { connection_string = "db://localhost:5432" }

abbrev pub new_service : Database → Service
new_service db = record { db = db }

abbrev pub new_application : Service → Application
new_application service = record { service = service }

-- The error is a text here; this injector has none.
unfoldable pub initialize_app : String ⊎ Application
initialize_app =
    let database = new_database in
    let service = new_service database in
    let application = new_application service in inr application

-- The line that is printed, or the error of log.Fatal.
abbrev pub report : String ⊎ Application → String ⊎ String
report (inl e) = inl e
report (inr app) = inr (
    format (
      "App initialized with DB connection string: " ∷ app.service.db.connection_string ∷ "\n" ∷ []))

unfoldable pub main : String ⊎ String
main = report initialize_app

main_runs : main ≡ inr "App initialized with DB connection string: db://localhost:5432\n"
unfolding main initialize_app format
main_runs = refl
