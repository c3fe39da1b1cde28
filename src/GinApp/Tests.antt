-- ===== src/GinApp/Tests.antt =====
-- The gin application at a concrete binding: every body but the empty one binds to one user.
use kratos_demo.Prelude.{◌≡◌, refl, inl, inr, none, some, if◌then◌else◌, ◌==◌, string_comparable}
use kratos_demo.GinApp.{User, Request, Gin, load_routes, logger, create_user, serve}

abbrev jane : User
jane = record { id = "7"; name = "Jane"; email = "jane@example.com" }

abbrev gin : Gin
gin = record {
  match_user = λ path. if path == "/users/7" then some "7" else none;
  bind = λ content. if content == "" then inl "EOF" else inr jane;
}

abbrev request : Request
request = record { method = "POST"; path = "/users"; raw_query = "a=b"; content = "{}" }

no_body : (serve gin "1ms" (record request { content = "" })).0.status ≡ 400
unfolding serve logger load_routes create_user
no_body = refl
