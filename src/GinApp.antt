-- ===== src/GinApp.antt =====
-- my-gin-app: the user routes and their logger. gin's matching of "/users/:id", its binding of a JSON
-- body and the clock are parameters; the panic recovery and the log of gin.Default() are left out.
pub mod Answers
pub mod Tests
use kratos_demo.Prelude.{
  ◌⊎◌, inl, inr, Option, none, some, ℕ, List, [], ◌∷◌, String, format, if◌then◌else◌, ◌==◌,
  string_comparable,
}
use kratos_demo.Prelude.Int.{pos}
use kratos_demo.Prelude.Decimal.{itoa}

pub record User : Type 0 where
  pub id : String
  pub name : String
  pub email : String

pub record Request : Type 0 where
  pub method : String
  pub path : String
  pub raw_query : String
  pub content : String

-- The parameter "id" of a path that matches "/users/:id", and `ShouldBindJSON`, with its error's text.
pub record Gin : Type 0 where
  pub match_user : String → Option String
  pub bind : String → String ⊎ User

pub data Body : Type 0 where
  shown : User → Body
  error : String → Body
  page_not_found : Body

pub record Reply : Type 0 where
  pub status : ℕ
  pub body : Body

abbrev pub json : ℕ → Body → Reply
json status body = record { status = status; body = body }

-- The argument is the parameter "id".
unfoldable pub get_user : String → Reply
get_user id = json 200 (shown (record { id = id; name = "John Doe"; email = "john@example.com" }))

module _ (g : Gin) where
  abbrev pub created : String ⊎ User → Reply
  created (inl e) = json 400 (error e)
  created (inr user) = json 201 (shown user)

  unfoldable pub create_user : String → Reply
  create_user content = created (g.bind content)

  abbrev pub user_or_missing : Option String → Reply
  user_or_missing none = json 404 page_not_found
  user_or_missing (some id) = get_user id

  unfoldable pub load_routes : Request → Reply
  load_routes r =
      if r.method == "GET"
      then user_or_missing (g.match_user r.path)
      else (if r.method == "POST"
          then (if r.path == "/users" then create_user r.content else json 404 page_not_found)
          else json 404 page_not_found)

  -- The reply and the line that is printed; the first argument is the time that has passed.
  unfoldable pub logger : String → (Request → Reply) → Request → Reply × String
  logger elapsed next r =
      let reply = next r in
      (
        reply,
        format (
            elapsed ∷ " " ∷ itoa (pos reply.status) ∷ " " ∷ r.path ∷ " " ∷ r.raw_query ∷ "\n" ∷ []),
      )

  unfoldable pub serve : String → Request → Reply × String
  serve elapsed = logger elapsed load_routes
