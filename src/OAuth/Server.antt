-- ===== src/OAuth/Server.antt =====
-- cmd/auth/auth.go: the authorization server. Its two maps are the state; a section under
-- `mutex` is one atomic function. A draw of math/rand is an argument.
pub mod Codes
pub mod Sessions
use kratos_demo.Prelude.{
  ℕ, Bool, true, not, ◌||◌, Option, none, some, String, if◌then◌else◌, ◌==◌, string_comparable,
}
use kratos_demo.Prelude.Assoc.{Map, lookup, insert, delete}
use kratos_demo.OAuth.Http.{Response, json, redirect, error, token, Urls, Formats}

abbrev pub client_id : String
client_id = "client1"

abbrev pub client_secret : String
client_secret = "secret1"

abbrev pub redirect_uri : String
redirect_uri = "http://localhost:8083/callback"

pub record Server : Type 0 where
  pub auth_codes : Map String String
  pub tokens : Map String String

-- The query of GET /authorize.
pub record AuthorizeRequest : Type 0 where
  pub client_id_req : String
  pub redirect_uri_req : String
  pub response_type : String

-- The form of POST /token.
pub record TokenRequest : Type 0 where
  pub grant_type : String
  pub code : String
  pub client_id_req : String
  pub client_secret_req : String

-- `rand.Intn(1000000)` is the argument.
unfoldable pub generate_auth_code : Formats → ℕ → String
generate_auth_code fmt n = fmt.pad6 n

-- `rand.Int63()` is the argument.
unfoldable pub generate_token : Formats → ℕ → String
generate_token fmt n = fmt.hex n

-- The section of authorizeHandler under `mutex`.
unfoldable pub store_code : Server → String → Server
store_code s code = record s { auth_codes = insert code client_id s.auth_codes }

-- The first section of tokenHandler under `mutex`: `authCodes[code]`, deleted if it exists.
unfoldable pub take_code : Server → String → Option String × Server
take_code s code = elim (lookup code s.auth_codes) [
  | none ↦ (none, s)
  | some stored ↦ (some stored, record s { auth_codes = delete code s.auth_codes })
]

-- The second section of tokenHandler under `mutex`.
unfoldable pub store_token : Server → String → Server
store_token s access_token = record s { tokens = insert access_token client_id s.tokens }

-- `!exists || storedClientID != clientID`.
abbrev pub rejects : Option String → Bool
rejects none = true
rejects (some stored) = not (stored == client_id)

abbrev pub bad_client : AuthorizeRequest → Bool
bad_client r = not (r.client_id_req == client_id) || not (r.redirect_uri_req == redirect_uri)

abbrev pub bad_credentials : TokenRequest → Bool
bad_credentials r = not (r.client_id_req == client_id) || not (r.client_secret_req == client_secret)

module _ (fmt : Formats) (urls : Urls) where
  open urls use {parse, query, set, encode, with_raw_query, render}

  -- The redirect at the end of authorizeHandler.
  unfoldable pub redirect_with_code : String → Response
  redirect_with_code auth_code = elim (parse redirect_uri) [
    | none ↦ json 500 (error "Invalid redirect URI")
    | some redirect_url ↦
        redirect 302 (
          render (with_raw_query redirect_url (encode (set (query redirect_url) "code" auth_code))))
  ]

  unfoldable pub authorize_handler : Server → AuthorizeRequest → ℕ → Server × Response
  authorize_handler s r draw =
      if bad_client r
      then (s, json 400 (error "Invalid client_id or redirect_uri"))
      else if not (r.response_type == "code")
      then (s, json 400 (error "Invalid response_type"))
      else (let auth_code = generate_auth_code fmt draw in
          (store_code s auth_code, redirect_with_code auth_code))

-- The guards of tokenHandler before it takes the mutex; `none` lets the request pass.
unfoldable pub token_guard : TokenRequest → Option Response
token_guard r =
    if not (r.grant_type == "authorization_code")
    then some (json 400 (error "Invalid grant_type"))
    else if bad_credentials r
    then some (json 401 (error "Invalid client credentials"))
    else none

unfoldable pub grant : Formats → Server → ℕ → Server × Response
grant fmt s draw =
    let access_token = generate_token fmt draw in
    (store_token s access_token, json 200 (token access_token "bearer" 3600))

unfoldable pub token_handler : Formats → Server → TokenRequest → ℕ → Server × Response
token_handler fmt s r draw = elim (token_guard r) [
  | some refusal ↦ (s, refusal)
  | none ↦
      let (found, s') = take_code s r.code in
      if rejects found
      then (s', json 400 (error "Invalid or expired authorization code"))
      else grant fmt s' draw
]
