-- ===== src/Service/Greeter.antt =====
-- internal/biz/greeter.go, internal/data/greeter.go and
-- internal/service/greeter.go. The log lines are not modelled.
use kratos_demo.Prelude.{
  ℕ, Option, none, some, List, [], String, if◌then◌else◌, ◌==◌, string_comparable, ok, err, ◌>>=◌,
}
use kratos_demo.Service.Kratos.{status, Call, LocalizeConfig, I18n, Handler}
use kratos_demo.Prelude.Int.{ℤ}
use kratos_demo.Service.Localize.{from_context}

pub record Greeter : Type 0 where
  pub hello : String

-- `biz.GreeterRepo`; a nil pointer is `none`.
pub record GreeterRepo : Type 0 where
  pub save : Greeter → Call (Option Greeter)
  pub update : Greeter → Call (Option Greeter)
  pub find_by_id : ℤ → Call (Option Greeter)
  pub list_by_hello : String → Call (List Greeter)
  pub list_all : Call (List Greeter)

-- `data.greeterRepo`: it keeps nothing.
unfoldable pub new_greeter_repo : GreeterRepo
new_greeter_repo = record {
  save = λ g. ok (some g);
  update = λ g. ok (some g);
  find_by_id = λ id. ok none;
  list_by_hello = λ hello. ok [];
  list_all = ok [];
}

pub record GreeterUsecase : Type 0 where
  pub repo : GreeterRepo

unfoldable pub create_greeter : GreeterUsecase → Greeter → Call (Option Greeter)
create_greeter uc g = uc.repo.save g

-- `ErrorReason_USER_NOT_FOUND`.
abbrev pub user_not_found : ℕ
user_not_found = 1

abbrev pub hello_config : String → LocalizeConfig
hello_config name = record {
  description = "sayhello";
  id = "sayHello";
  one = "Hello {{.Name}}";
  other = "Hello {{.Name}}";
  name = name;
}

module _ (i : I18n) where
  unfoldable pub say_hello : GreeterUsecase → Handler i
  say_hello uc ctx req =
      if req.name == "error" then err (status user_not_found "user not found: %s" req.name) else (do
        localizer ← from_context i ctx
        hello_msg ← i.localize localizer (hello_config req.name)
        ok (record { message = hello_msg }))
