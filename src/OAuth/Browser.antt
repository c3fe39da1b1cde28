-- ===== src/OAuth/Browser.antt =====
-- cmd/oauth/client/client.go, the program that logs a browser in and keeps its token in a cookie, and
-- cmd/callback/callback.go, which shows a code. golang.org/x/oauth2 and the network are parameters.
use kratos_demo.Prelude.{
  ℕ, ◌≡◌, refl, ◌⊎◌, inl, inr, false, none, some, [], ◌∷◌, String, str_append, format,
  if◌then◌else◌, ◌==◌, string_comparable,
}
use kratos_demo.Prelude.Assoc.{Map, lookup}

-- What a handler writes: the status, the cookies that it sets, and the body or the redirect's target.
pub data Content : Type 0 where
  page : String → Content
  location : String → Content

pub record Written : Type 0 where
  pub status : ℕ
  pub cookies : Map String String
  pub content : Content

-- `http.Redirect` with `http.StatusFound`, and `http.Error` with `http.StatusBadRequest`.
abbrev redirect : String → Written
redirect url = record { status = 302; cookies = []; content = location url }

abbrev bad_request : String → Written
bad_request message = record {
  status = 400;
  cookies = [];
  content = page (str_append message "\n");
}

pub record Config : Type 0 where
  -- `cfg.AuthCodeURL(state, oauth2.AccessTypeOnline)`.
  pub auth_code_url : String → String
  -- `cfg.Exchange(ctx, code)`: the error's text, or the access token.
  pub exchange : String → String ⊎ String
  -- `http.Get`: the error's text, or what `ioutil.ReadAll` makes of the body.
  pub http_get : String → String ⊎ (String ⊎ String)

module _ (cfg : Config) where
  open cfg use {auth_code_url, exchange, http_get}

  unfoldable pub login_handler : Written
  login_handler = redirect (auth_code_url "state")

  -- The argument is the query parameter "code".
  unfoldable pub callback_handler : String → Written
  callback_handler code =
      if code == "" then bad_request "Missing authorization code" else elim (exchange code) [
        | inl message ↦ bad_request message
        | inr access_token ↦ record (redirect "/") { cookies = ("access_token", access_token) ∷ [] }
      ]

  abbrev pub user_url : String → String
  user_url access_token = str_append "http://localhost:8081/user?access_token=" access_token

  abbrev user_page : String ⊎ (String ⊎ String) → Written
  user_page (inl message) = bad_request message
  user_page (inr (inl message)) = bad_request message
  user_page (inr (inr body)) = record { status = 200; cookies = []; content = page body }

  -- The argument is the request's cookies.
  unfoldable pub user_handler : Map String String → Written
  user_handler cookies = elim (lookup "access_token" cookies) [
    | none ↦ redirect "/login"
    | some access_token ↦ user_page (http_get (user_url access_token))
  ]

  -- A browser that sends back the cookies of a callback that succeeded is shown what the server
  -- answers for the token of that callback's exchange.
  pub user_handler-callback_handler :
      (code access_token body : String)
      → (code == "") ≡ false
      → exchange code ≡ inr access_token
      → http_get (user_url access_token) ≡ inr (inr body)
      → user_handler (callback_handler code).cookies
        ≡ record { status = 200; cookies = []; content = page body }
  unfolding user_handler callback_handler lookup
  user_handler-callback_handler code access_token body h e g = rw (callback_handler, h, e, g) refl

-- The handler of /callback in cmd/callback/callback.go.
unfoldable pub show_code : String → Written
show_code code =
    if code == ""
    then record { status = 400; cookies = []; content = page "No authorization code provided\n" }
    else record {
      status = 200;
      cookies = [];
      content = page (format ("Authorization code received: " ∷ code ∷ "\n" ∷ []));
    }
