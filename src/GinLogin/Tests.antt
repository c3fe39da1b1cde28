-- ===== src/GinLogin/Tests.antt =====
-- The login page on a writer that keeps the first status.
use kratos_demo.Prelude.{
  ◌≡◌, refl, ℕ, Option, none, some, List, [], ◌∷◌, String, if◌then◌else◌, ◌==◌, string_comparable,
  arith,
}
use kratos_demo.GinLogin.{Gin, IsGin, serve, auth_url, serve-login}

-- A response: the status on the wire, and where it points to.
abbrev Response : Type 0
Response = Option ℕ × String

first : ℕ → Option ℕ → Option ℕ
first code none = some code
first code (some written) = some written

first-written : (code written : ℕ) (o : Option ℕ) → o ≡ some written → first code o ≡ some written
unfolding first
first-written code written o h = ground (arith, h)

first-fresh : (code : ℕ) (o : Option ℕ) → o ≡ none → first code o ≡ some code
unfolding first
first-fresh code o h = ground (arith, h)

abbrev match : String → String → Option (List (String × String))
match pattern path = if path == pattern then some [] else none

match-static :
    (path : String) (params : List (String × String))
    → match "/helloworld/login" path ≡ some params
    → params ≡ []
match-static path params h = ground (arith, h)

abbrev writer : Gin
writer = record {
  St = Response;
  match = match;
  json = λ code body s. (first code s.0, s.1);
  redirect = λ code url s. (first code s.0, url);
  unauthorized = λ reason message s. (first 401 s.0, s.1);
}

abbrev writer-IsGin : IsGin writer
writer-IsGin = record {
  status = λ s. s.0;
  static = match-static;
  json_writes = λ code body s h. first-fresh code s.0 h;
  redirect_keeps = λ code written url s h. first-written code written s.0 h;
}

abbrev fresh : Response
fresh = (none, "")

serve-login_example :
    (end : Response) × (serve writer "/helloworld/login" fresh ≡ some end)
    × (writer-IsGin.status end ≡ some 200)
    × (end ≡ writer.redirect 302 (auth_url writer) (writer.json 200 (("welcome", "") ∷ []) fresh))
serve-login_example = serve-login writer writer-IsGin "/helloworld/login" [] fresh refl refl
