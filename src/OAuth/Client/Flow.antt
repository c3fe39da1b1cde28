-- ===== src/OAuth/Client/Flow.antt =====
-- The client of cmd/authclient/authclient.go against the authorization server of cmd/auth/auth.go.
use kratos_demo.Prelude.{
  ℕ, ◌≡◌, ◌↔◌, refl, sym, ◌∙◌, ok-injective, Option-cases, eq_self, Bool-cases, ap, true, ◌⊎◌, inl,
  inr, none, some, [], ◌∷◌, String, arith, if◌then◌else◌, ◌==◌, string_comparable, nat_comparable,
  ok, eq_iff,
}
use kratos_demo.Prelude.Assoc.{Map, lookup, lookup-insert_self}
use kratos_demo.OAuth.Http.{Body, error, token, Response, json, redirect, Urls, Formats}
use kratos_demo.OAuth.Server.{
  Server, TokenRequest, AuthorizeRequest, client_id, client_secret, token_handler, token_guard,
  take_code, grant, store_token, authorize_handler, generate_token, generate_auth_code,
}
use kratos_demo.OAuth.Server.Codes.{
  authorizes, authorize_handler_effect, IsRedeemable, token_handler_grants,
}
use kratos_demo.OAuth.Client.{
  Json, json_text, json_other, HttpResponse, Network, token_of, get_access_token,
}

-- JSON as gin writes it and encoding/json reads it back.
pub record JsonText : Type 1 where
  pub Bytes : Type 0
  pub marshal : Map String Json → Bytes
  pub unmarshal : Bytes → String ⊎ Map String Json
  pub reads_back : (m : Map String Json) → unmarshal (marshal m) ≡ inr m

module _ (fmt : Formats) (js : JsonText) where
  abbrev members : Body → Map String Json
  members (error message) = ("error", json_text message) ∷ []
  members (token access_token token_type expires_in) =
      ("access_token", json_text access_token)
      ∷ ("token_type", json_text token_type)
      ∷ ("expires_in", json_other)
      ∷ []

  -- What arrives at the client.
  abbrev pub answer : Response → HttpResponse String js.Bytes
  answer (json status body) = record {
    status_code = status;
    body = js.marshal (members body);
    read_error = none;
  }
  answer (redirect status url) = record {
    status_code = status;
    body = js.marshal [];
    read_error = none;
  }

  -- `c.PostForm(key)`.
  abbrev post_form : String → Map String String → String
  post_form key form = elim (lookup key form) [ none ↦ "" | some v ↦ v ]

  abbrev request_of : Map String String → TokenRequest
  request_of form = record {
    grant_type = post_form "grant_type" form;
    code = post_form "code" form;
    client_id_req = post_form "client_id" form;
    client_secret_req = post_form "client_secret" form;
  }

  -- The network in which the authorization server answers on its port, and draws `draw` for a token.
  abbrev pub server_net : ℕ → Network Server
  server_net draw = record {
    E = String;
    Bytes = js.Bytes;
    post_form = λ url form s.
        if url == "http://localhost:8081/token"
        then (let (s', response) = token_handler fmt s (request_of form) draw in
            (inr (answer response), s'))
        else (inl "connection refused", s);
    get = λ url headers s. (inl "connection refused", s);
    unmarshal = js.unmarshal;
  }

  abbrev pub redeem_request : String → TokenRequest
  redeem_request auth_code = record {
    grant_type = "authorization_code";
    code = auth_code;
    client_id_req = client_id;
    client_secret_req = client_secret;
  }

  module _ (draw : ℕ) where
    get_access_token_step :
        (auth_code : String) (s : Server)
        → get_access_token (server_net draw) auth_code s ≡ (
          token_of
              (server_net draw)
              (inr (answer (token_handler fmt s (redeem_request auth_code) draw).1)),
          (token_handler fmt s (redeem_request auth_code) draw).0,
        )
    unfolding get_access_token lookup
    get_access_token_step auth_code s = refl

    token_of-granted :
        (t token_type : String) (n : ℕ)
        → token_of (server_net draw) (inr (answer (json 200 (token t token_type n)))) ≡ ok t
    unfolding token_of lookup
    token_of-granted t token_type n =
        rw (token_of, js.reads_back (members (token t token_type n))) refl

    token_of-refused :
        (message t : String)
        → token_of (server_net draw) (inr (answer (json 400 (error message)))) ≡ ok t
        → ⊥
    unfolding token_of
    token_of-refused message t h = cc h

    abbrev IsIssued : Server → String → Type 0
    IsIssued s auth_code = lookup auth_code s.auth_codes ≡ some client_id

    redeem-IsIssued :
        (s : Server) (auth_code : String)
        → IsIssued s auth_code
        → IsRedeemable s (redeem_request auth_code)
    redeem-IsIssued s auth_code h = record {
      grant_type = refl;
      client = refl;
      secret = refl;
      issued = h;
    }

    refused-IsIssued :
        (s : Server) (auth_code : String)
        → IsIssued s auth_code
          ⊎ ((token_handler fmt s (redeem_request auth_code) draw).1
              ≡ json 400 (error "Invalid or expired authorization code"))
    unfolding token_handler token_guard take_code
    refused-IsIssued s auth_code = elim (Option-cases (lookup auth_code s.auth_codes)) [
      | inl missing ↦ inr (ground (arith, missing))
      | inr (stored, found) ↦ elim (Bool-cases (stored == client_id)) [
        | inl same ↦ inl (found ∙ ap some ((eq_iff stored client_id).0 same))
        | inr differs ↦ inr (ground (arith, found, differs))
      ]
    ]

    granted_token :
        (s : Server) (auth_code : String)
        → IsIssued s auth_code
        → (get_access_token (server_net draw) auth_code s).0 ≡ ok (generate_token fmt draw)
    unfolding grant
    granted_token s auth_code h =
        rw
          (
            get_access_token_step auth_code s,
            token_handler_grants fmt s (redeem_request auth_code) draw
                (redeem-IsIssued s auth_code h),
          )
          (token_of-granted (generate_token fmt draw) "bearer" 3600)

    granted_tokens :
        (s : Server) (auth_code : String)
        → IsIssued s auth_code
        → lookup
            (generate_token fmt draw)
            (token_handler fmt s (redeem_request auth_code) draw).0.tokens
          ≡ some client_id
    unfolding grant store_token
    granted_tokens s auth_code h =
        rw
          (token_handler_grants fmt s (redeem_request auth_code) draw
            (redeem-IsIssued s auth_code h))
          (lookup-insert_self (generate_token fmt draw) client_id s.tokens)

    -- The client gets a token exactly when the server has issued the code to it; the token is the one
    -- that the server draws, and the server's state is then the one that its handler leaves.
    pub get_access_token_iff :
        (s : Server) (auth_code : String)
        → ((t : String)
            → ((get_access_token (server_net draw) auth_code s).0 ≡ ok t)
              ↔ ((lookup auth_code s.auth_codes ≡ some client_id) × (t ≡ generate_token fmt draw)))
          × ((get_access_token (server_net draw) auth_code s).1
              ≡ (token_handler fmt s (redeem_request auth_code) draw).0)
    get_access_token_iff s auth_code = (
      λ t. (
        λ h. elim (refused-IsIssued s auth_code) [
          | inl issued ↦ (issued, sym (ok-injective (sym (granted_token s auth_code issued) ∙ h)))
          | inr refused ↦ absurd (
              token_of-refused "Invalid or expired authorization code" t
                (rw (get_access_token_step auth_code s, refused) at h))
        ],
        λ (issued, e). granted_token s auth_code issued ∙ ap ok (sym e),
      ),
      ap (λ r. r.1) (get_access_token_step auth_code s),
    )

  -- A login through both programs: a code that the server issues to a valid authorization request,
  -- presented by the client, gets it the token that the server draws, and the server then knows that
  -- token as the client's.
  pub get_access_token-authorize_handler :
      (urls : Urls) (s : Server) (r : AuthorizeRequest) (draw_code draw : ℕ)
      → authorizes r ≡ true
      → let s' = (authorize_handler fmt urls s r draw_code).0 in
        let end = get_access_token (server_net draw) (generate_auth_code fmt draw_code) s' in
        (end.0 ≡ ok (generate_token fmt draw))
        × (lookup (generate_token fmt draw) end.1.tokens ≡ some client_id)
  get_access_token-authorize_handler urls s r draw_code draw h =
      let s' = (authorize_handler fmt urls s r draw_code).0 in
      let code = generate_auth_code fmt draw_code in
      let issued : lookup code s'.auth_codes ≡ some client_id =
        ground (arith, (authorize_handler_effect fmt urls s r draw_code).0 code, h, eq_self code) in
      let (gets, state) = get_access_token_iff draw s' code in
      (
        (gets (generate_token fmt draw)).1 (issued, refl),
        rw state (granted_tokens draw s' code issued),
      )
