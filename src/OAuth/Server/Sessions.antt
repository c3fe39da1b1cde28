-- ===== src/OAuth/Server/Sessions.antt =====
-- Requests that run at the same time. A token request takes the mutex twice, and other requests may
-- run between the two sections, so it is two steps; all else in a handler is local to its request.
use kratos_demo.Prelude.{
  ℕ, ◌+◌, ◌-◌, ◌≤◌, ◌<◌, ◌≡◌, ◌≢◌, refl, inl, inr, none, [], String, arith, eq_iff,
  string_comparable, if◌then◌else◌, length, Bool-cases, Option-cases,
}
use kratos_demo.Prelude.Assoc.{
  lookup, lookup-delete, lookup-delete_self, length-insert, length-delete,
}
use kratos_demo.OAuth.Http.{Urls, Formats}
use kratos_demo.OAuth.Server.{
  Server, AuthorizeRequest, TokenRequest, client_id, generate_auth_code, generate_token, store_code,
  take_code, store_token, rejects, authorize_handler, token_guard, grant, token_handler,
}
use kratos_demo.OAuth.Server.Codes.{authorizes, authorize_handler_effect}

-- The server's maps, the token requests that have taken a code and not yet stored a token, and two
-- counts of history: codes stored, and tokens granted.
pub record System : Type 0 where
  pub server : Server
  pub pending : ℕ
  pub issued : ℕ
  pub granted : ℕ

abbrev pub start : System
start = record {
  server = record { auth_codes = []; tokens = [] };
  pending = 0;
  issued = 0;
  granted = 0;
}

-- The first section of a token request.
abbrev pub redeem : System → String → System
redeem y code =
    let (found, s) = take_code y.server code in
    if rejects found
    then record y { server = s }
    else record y { server = s; pending = y.pending + 1 }

module _ (fmt : Formats) (urls : Urls) where
  pub data Step (y : System) : System → Type 0 where
    authorize :
        (r : AuthorizeRequest) (draw : ℕ)
        → Step y (record y {
          server = (authorize_handler fmt urls y.server r draw).0;
          issued = if authorizes r then y.issued + 1 else y.issued;
        })
    redeems : (r : TokenRequest) → token_guard r ≡ none → Step y (redeem y r.code)
    finish :
        (draw : ℕ)
        → 0 < y.pending
        → Step y (record y {
          server = (grant fmt y.server draw).0;
          pending = y.pending - 1;
          granted = y.granted + 1;
        })

  pub data Reach (y : System) : System → Type 0 where
    here : Reach y y
    next : {z w : System} → Reach y z → Step z w → Reach y w

-- Every code that is stored, held by a request in between, or spent on a token was issued.
pub record IsBudgeted (y : System) : Type 0 where
  pub codes : length y.server.auth_codes + y.pending + y.granted ≤ y.issued
  pub tokens : length y.server.tokens ≤ y.granted

redeem-IsBudgeted : (y : System) (code : String) → IsBudgeted y → IsBudgeted (redeem y code)
unfolding take_code
redeem-IsBudgeted y code v = elim (Option-cases (lookup code y.server.auth_codes)) [
  | inl missing ↦ ground (arith, missing)
  | inr (stored, found) ↦ ground (arith, length-delete code stored y.server.auth_codes found)
]

module _ (fmt : Formats) (urls : Urls) where
  Step-IsBudgeted : {y z : System} → Step fmt urls y z → IsBudgeted y → IsBudgeted z
  unfolding authorize_handler grant store_code store_token
  Step-IsBudgeted {y} (authorize r draw) v =
      ground (arith, length-insert (generate_auth_code fmt draw) client_id y.server.auth_codes)
  Step-IsBudgeted {y} (redeems r g) v = redeem-IsBudgeted y r.code v
  Step-IsBudgeted {y} (finish draw h) v =
      ground (arith, length-insert (generate_token fmt draw) client_id y.server.tokens)

  Reach-IsBudgeted : {y z : System} → IsBudgeted y → Reach fmt urls y z → IsBudgeted z
  Reach-IsBudgeted v here = v
  Reach-IsBudgeted v (next r st) = Step-IsBudgeted st (Reach-IsBudgeted v r)

  -- Whatever requests run, and however their sections interleave, the server never grants more
  -- tokens than it has issued codes.
  pub granted-le-issued : {y : System} → Reach fmt urls start y → y.granted + y.pending ≤ y.issued
  granted-le-issued r = omega (arith, Reach-IsBudgeted (omega arith) r)

  -- No authorization request of the run draws this code.
  abbrev pub Avoids : (code : String) {y z : System} → Reach fmt urls y z → Type 0
  Avoids code here = Unit {0}
  Avoids code (next r (authorize q draw)) = Avoids code r × (generate_auth_code fmt draw ≢ code)
  Avoids code (next r (redeems q g)) = Avoids code r
  Avoids code (next r (finish draw h)) = Avoids code r

  abbrev Unknown : String → System → Type 0
  Unknown code y = lookup code y.server.auth_codes ≡ none

  redeem-Unknown : (y : System) (c code : String) → Unknown code y → Unknown code (redeem y c)
  unfolding take_code
  redeem-Unknown y c code h = ground (arith, h, lookup-delete c code y.server.auth_codes)

  Reach-Unknown :
      (code : String) {y z : System} (r : Reach fmt urls y z)
      → Avoids code r
      → Unknown code y
      → Unknown code z
  unfolding grant store_token
  Reach-Unknown code here a h = h
  Reach-Unknown code (next {z = z} r (authorize q draw)) a h = ground (
    arith,
    Reach-Unknown code r a.0 h,
    (authorize_handler_effect fmt urls z.server q draw).0 code,
    eq_iff (generate_auth_code fmt draw) code,
  )
  Reach-Unknown code (next {z = z} r (redeems q g)) a h =
      redeem-Unknown z q.code code (Reach-Unknown code r a h)
  Reach-Unknown code (next r (finish draw p)) a h = Reach-Unknown code r a h

  -- An authorization code is good for one redemption: once a token request has presented it, every
  -- later request with that code is refused, until an authorization request draws the same code.
  pub code_single_use :
      (y : System) (code : String) {z : System} (r : Reach fmt urls (redeem y code) z)
      → Avoids code r
      → redeem z code ≡ z
  unfolding take_code
  code_single_use y code {z} r a =
      let gone : Unknown code (redeem y code) =
        ground (arith, lookup-delete_self code y.server.auth_codes) in
      ground (arith, Reach-Unknown code r a gone)

  -- A token request that runs alone is a run of these steps: the handler's new state and no more.
  pub token_handler-Reach :
      (y : System) (r : TokenRequest) (draw : ℕ)
      → (z : System) × Reach fmt urls y z
        × (z.server ≡ (token_handler fmt y.server r draw).0)
        × (z.pending ≡ y.pending)
  unfolding token_handler
  token_handler-Reach y r draw = elim (Option-cases (token_guard r)) [
    | inr (refusal, g) ↦ (y, here, rw (g, token_handler), refl)
    | inl g ↦ elim (Bool-cases (rejects (take_code y.server r.code).0)) [
      | inl e ↦ (redeem y r.code, next here (redeems r g), ground (arith, e, g), ground (arith, e))
      | inr e ↦
          let z = redeem y r.code in
          let held : z.pending ≡ y.pending + 1 = ground (arith, e) in
          (
            record z {
              server = (grant fmt z.server draw).0;
              pending = z.pending - 1;
              granted = z.granted + 1;
            },
            next (next here (redeems r g)) (finish draw (omega (arith, held))),
            ground (arith, e, g),
            omega (arith, held),
          )
    ]
  ]
