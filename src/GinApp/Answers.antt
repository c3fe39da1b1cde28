-- ===== src/GinApp/Answers.antt =====
-- What my-gin-app answers and prints.
use kratos_demo.Prelude.{
  ◌≡◌, ◌↔◌, refl, ap, ap₂, ◌∙◌, ◌⊎◌, inl, inr, Option, none, some, [], ◌∷◌, String, format, arith,
  ◌==◌, string_comparable, eq_iff, Bool-cases,
}
use kratos_demo.Prelude.Int.{pos}
use kratos_demo.Prelude.Decimal.{itoa, emit}
use kratos_demo.GinApp.{
  User, Request, Gin, shown, json, get_user, create_user, created, user_or_missing, load_routes,
  logger, serve,
}

-- The line of the logger.
abbrev line : String → String → String → String → String
line elapsed status path raw_query =
    format (elapsed ∷ " " ∷ status ∷ " " ∷ path ∷ " " ∷ raw_query ∷ "\n" ∷ [])

itoa_201 : itoa (pos 201) ≡ "201"
unfolding itoa emit
itoa_201 = refl

module _ (g : Gin) where
  -- The request creates a user: it is a POST to /users whose body binds to the user.
  abbrev pub Creates : Request → User → Type 0
  Creates r user = (r.method ≡ "POST") × (r.path ≡ "/users") × (g.bind r.content ≡ inr user)

  created-201 :
      (b : String ⊎ User) (user : User) → created g b ≡ json 201 (shown user) → b ≡ inr user
  created-201 (inl e) user h = absurd (cc h)
  created-201 (inr u) user h = cc h

  not_created : (o : Option String) (user : User) → user_or_missing g o ≡ json 201 (shown user) → ⊥
  unfolding get_user
  not_created none user h = absurd (cc h)
  not_created (some id) user h = absurd (omega (arith, ap (λ r. r.status) h))

  load_routes-Creates :
      (r : Request) (user : User) → load_routes g r ≡ json 201 (shown user) → Creates r user
  unfolding load_routes create_user
  load_routes-Creates r user h = elim (Bool-cases (r.method == "GET")) [
    | inl m ↦ absurd (not_created (g.match_user r.path) user (ground (arith, m, h)))
    | inr m ↦ elim (Bool-cases (r.method == "POST")) [
      | inr k ↦ absurd (ground (arith, m, k, h))
      | inl k ↦ elim (Bool-cases (r.path == "/users")) [
        | inr p ↦ absurd (ground (arith, m, k, p, h))
        | inl p ↦ (
          (eq_iff r.method "POST").0 k,
          (eq_iff r.path "/users").0 p,
          created-201 (g.bind r.content) user (ground (arith, m, k, p, h)),
        )
      ]
    ]
  ]

  Creates-load_routes :
      (r : Request) (user : User) → Creates r user → load_routes g r ≡ json 201 (shown user)
  unfolding load_routes create_user
  Creates-load_routes r user (m, p, b) = rw (m, p, b) refl

  -- A request is answered 201 with a user exactly when it is a POST to /users whose body binds to that
  -- user; the line that is printed for it then has the status 201, the path and the query.
  pub serve-Creates_iff :
      (elapsed : String) (r : Request) (user : User)
      → ((serve g elapsed r).0 ≡ json 201 (shown user)) ↔ (
          Creates r user
          × ((serve g elapsed r).1
              ≡ format (elapsed ∷ " " ∷ "201" ∷ " " ∷ "/users" ∷ " " ∷ r.raw_query ∷ "\n" ∷ [])))
  unfolding serve logger
  serve-Creates_iff elapsed r user = (
    λ h.
        let c = load_routes-Creates r user h in
        (
          c,
          ap₂ (λ reply path. line elapsed (itoa (pos reply.status)) path r.raw_query) h c.1
              ∙ ap (λ n. line elapsed n "/users" r.raw_query) itoa_201,
        ),
    λ (c, l). Creates-load_routes r user c,
  )
