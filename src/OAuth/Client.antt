-- ===== src/OAuth/Client.antt =====
-- cmd/authclient/authclient.go: the client of the authorization server. The network and JSON decoding
-- are parameters; `W` is the state of the world that answers.
pub mod Flow
use kratos_demo.Prelude.{
  ℕ, ◌⊎◌, inl, inr, Option, none, some, List, [], ◌∷◌, String, str_append, format, if◌then◌else◌,
  ◌==◌, nat_comparable, string_comparable, Outcome, ok, err, panic, out_of_fuel,
}
use kratos_demo.Prelude.Assoc.{Map, lookup}

abbrev pub auth_server_url : String
auth_server_url = "http://localhost:8081"

abbrev pub resource_server_url : String
resource_server_url = "http://localhost:8082"

abbrev client_id : String
client_id = "client1"

abbrev client_secret : String
client_secret = "secret1"

abbrev redirect_uri : String
redirect_uri = "http://localhost:8083/callback"

-- A decoded JSON value: a text, or anything else.
pub data Json : Type 0 where
  json_text : String → Json
  json_other : Json

-- What `ioutil.ReadAll(resp.Body)` reads, and its error.
pub record HttpResponse (E Bytes : Type 0) : Type 0 where
  pub status_code : ℕ
  pub body : Bytes
  pub read_error : Option E

pub record Network (W : Type 0) : Type 1 where
  pub E : Type 0
  -- A body, which `string(body)` shows as it is.
  pub Bytes : Type 0
  -- `http.PostForm`.
  pub post_form : String → Map String String → W → (E ⊎ HttpResponse E Bytes) × W
  -- A GET with headers, by `http.NewRequest` and `client.Do`.
  pub get : String → Map String String → W → (E ⊎ HttpResponse E Bytes) × W
  -- `json.Unmarshal` into a map.
  pub unmarshal : Bytes → E ⊎ Map String Json

module _ {W : Type 0} (net : Network W) where
  open net use {E, Bytes, post_form, get, unmarshal}

  pub data Error : Type 0 where
    failed : E → Error
    returned : String → ℕ → Bytes → Error

  -- `tokenResponse["access_token"].(string)`.
  abbrev as_text : Option Json → Outcome Error String
  as_text none = panic
  as_text (some (json_text s)) = ok s
  as_text (some json_other) = panic

  -- The body of an answer with status 200, the body of any other in an error.
  abbrev read_body : String → HttpResponse E Bytes → Outcome Error Bytes
  read_body endpoint resp =
      if resp.status_code == 200
      then elim resp.read_error [ none ↦ ok resp.body | some e ↦ err (failed e) ]
      else err (returned endpoint resp.status_code resp.body)

  abbrev token_form : String → Map String String
  token_form auth_code =
      ("client_id", client_id)
      ∷ ("client_secret", client_secret)
      ∷ ("grant_type", "authorization_code")
      ∷ ("code", auth_code)
      ∷ ("redirect_uri", redirect_uri)
      ∷ []

  -- What the client makes of the token endpoint's answer.
  unfoldable pub token_of : E ⊎ HttpResponse E Bytes → Outcome Error String
  token_of (inl e) = err (failed e)
  token_of (inr resp) = elim (read_body "token endpoint returned status %d: %s" resp) [
    | ok body ↦ elim (unmarshal body) [
      | inl e ↦ err (failed e)
      | inr token_response ↦ as_text (lookup "access_token" token_response)
    ]
    | err e ↦ err e
    | panic ↦ panic
    | out_of_fuel ↦ out_of_fuel
  ]

  unfoldable pub get_access_token : String → W → Outcome Error String × W
  get_access_token auth_code w =
      let (answer, w') = post_form (str_append auth_server_url "/token") (token_form auth_code) w in
      (token_of answer, w')

  unfoldable pub resource_of : E ⊎ HttpResponse E Bytes → Outcome Error Bytes
  resource_of (inl e) = err (failed e)
  resource_of (inr resp) = read_body "resource endpoint returned status %d: %s" resp

  unfoldable pub get_protected_resource : String → W → Outcome Error Bytes × W
  get_protected_resource access_token w =
      let (answer, w') =
        get (str_append resource_server_url "/resource")
          (("Authorization", str_append "Bearer " access_token) ∷ []) w in
      (resource_of answer, w')

  -- How `main` ends for the code that the user enters: with the resource printed, with `log.Fatalf`, or
  -- with a panic.
  pub data Exit : Type 0 where
    printed : Bytes → Exit
    fatal : String → Error → Exit
    panicked : Exit

  unfoldable pub resource_exit : Outcome Error Bytes × W → Exit × W
  resource_exit (ok body, w) = (printed body, w)
  resource_exit (err e, w) = (fatal "访问受保护资源失败: %v" e, w)
  resource_exit (_, w) = (panicked, w)

  unfoldable pub token_exit : Outcome Error String × W → Exit × W
  token_exit (ok token, w) = resource_exit (get_protected_resource token w)
  token_exit (err e, w) = (fatal "获取访问令牌失败: %v" e, w)
  token_exit (_, w) = (panicked, w)

  unfoldable pub main : String → W → Exit × W
  main auth_code w = token_exit (get_access_token auth_code w)
