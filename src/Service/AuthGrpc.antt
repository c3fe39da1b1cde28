-- ===== src/Service/AuthGrpc.antt =====
-- api/helloworld/v1/auth_grpc.pb.go: the service description of Auth, its handlers, and the client.
-- grpc-go is a parameter.
use kratos_demo.Prelude.{
  ◌≡◌, refl, Option, none, some, List, [], ◌∷◌, String, format, if◌then◌else◌, ◌==◌,
  string_comparable, ok, ◌>>=◌,
}
use kratos_demo.Service.Kratos.{Call}
use kratos_demo.Service.Auth.{
  Subject, create_auth, update_auth, delete_auth, get_auth, list_auth, AuthRequest, AuthReply,
  request, AuthService,
}

abbrev pub sign_in_full_method_name : String
sign_in_full_method_name = "/api.helloworld.v1.Auth/SignIn"

abbrev pub auth_callback_full_method_name : String
auth_callback_full_method_name = "/api.helloworld.v1.Auth/AuthCallback"

abbrev pub sign_out_full_method_name : String
sign_out_full_method_name = "/api.helloworld.v1.Auth/SignOut"

abbrev pub update_auth_full_method_name : String
update_auth_full_method_name = "/api.helloworld.v1.Auth/UpdateAuth"

abbrev pub delete_auth_full_method_name : String
delete_auth_full_method_name = "/api.helloworld.v1.Auth/DeleteAuth"

abbrev pub get_auth_full_method_name : String
get_auth_full_method_name = "/api.helloworld.v1.Auth/GetAuth"

abbrev pub list_auth_full_method_name : String
list_auth_full_method_name = "/api.helloworld.v1.Auth/ListAuth"

module _ (Ctx : Type 0) where
  -- A `grpc.UnaryServerInterceptor`: the full method, the context, the request and the handler.
  abbrev pub Interceptor : Type 0
  Interceptor =
      (k : Subject)
      → String
      → Ctx
      → AuthRequest k
      → (AuthRequest k → Call (AuthReply k))
      → Call (AuthReply k)

  -- The handler of a method; the decoder's outcome is an argument, and a nil interceptor is `none`.
  abbrev pub MethodHandler : Subject → Type 0
  MethodHandler k =
      AuthService → Ctx → Call (AuthRequest k) → Option Interceptor → Call (AuthReply k)

  -- What the seven handlers share.
  abbrev unary :
      (k : Subject)
      → String
      → (AuthRequest k → Call (AuthReply k))
      → Ctx
      → Call (AuthRequest k)
      → Option Interceptor
      → Call (AuthReply k)
  unary k full_method method ctx dec interceptor = do
    req ← dec
    elim interceptor [ none ↦ method req | some through ↦ through k full_method ctx req method ]

  unfoldable pub sign_in_handler : MethodHandler create_auth
  sign_in_handler srv = unary create_auth sign_in_full_method_name srv.sign_in

  unfoldable pub auth_callback_handler : MethodHandler create_auth
  auth_callback_handler srv = unary create_auth auth_callback_full_method_name srv.auth_callback

  unfoldable pub sign_out_handler : MethodHandler create_auth
  sign_out_handler srv = unary create_auth sign_out_full_method_name srv.sign_out

  unfoldable pub update_auth_handler : MethodHandler update_auth
  update_auth_handler srv = unary update_auth update_auth_full_method_name srv.update

  unfoldable pub delete_auth_handler : MethodHandler delete_auth
  delete_auth_handler srv = unary delete_auth delete_auth_full_method_name srv.delete

  unfoldable pub get_auth_handler : MethodHandler get_auth
  get_auth_handler srv = unary get_auth get_auth_full_method_name srv.get

  unfoldable pub list_auth_handler : MethodHandler list_auth
  list_auth_handler srv = unary list_auth list_auth_full_method_name srv.list

  pub record MethodDesc : Type 0 where
    pub method_name : String
    pub subject : Subject
    pub handler : MethodHandler subject

  abbrev pub auth_service_desc : List MethodDesc
  auth_service_desc =
      record { method_name = "SignIn"; subject = create_auth; handler = sign_in_handler }
      ∷ record {
        method_name = "AuthCallback";
        subject = create_auth;
        handler = auth_callback_handler;
      }
      ∷ record { method_name = "SignOut"; subject = create_auth; handler = sign_out_handler }
      ∷ record { method_name = "UpdateAuth"; subject = update_auth; handler = update_auth_handler }
      ∷ record { method_name = "DeleteAuth"; subject = delete_auth; handler = delete_auth_handler }
      ∷ record { method_name = "GetAuth"; subject = get_auth; handler = get_auth_handler }
      ∷ record { method_name = "ListAuth"; subject = list_auth; handler = list_auth_handler }
      ∷ []

  -- A method answers to "/", the service's name, "/" and its own; `none` is an unknown method. The
  -- decoder gives the messages of auth.proto, which have no field.
  unfoldable pub call_auth :
      List MethodDesc
      → AuthService
      → Option Interceptor
      → String
      → Ctx
      → Option (Call ((k : Subject) × AuthReply k))
  call_auth [] srv interceptor full_method ctx = none
  call_auth (m ∷ ms) srv interceptor full_method ctx =
      let others = call_auth ms srv interceptor full_method ctx in
      if format ("/api.helloworld.v1.Auth/" ∷ m.method_name ∷ []) == full_method
      then some (
          m.handler srv ctx (ok (request m.subject)) interceptor >>= λ reply. ok (m.subject, reply))
      else others

-- `authClient`: `cc.Invoke` with a full method and a request.
abbrev pub Invoke : Type 0
Invoke = (k : Subject) → String → AuthRequest k → Call (AuthReply k)

module _ (invoke : Invoke) where
  unfoldable pub client_sign_in : AuthRequest create_auth → Call (AuthReply create_auth)
  client_sign_in req = do out ← invoke create_auth sign_in_full_method_name req; ok out

  unfoldable pub client_auth_callback : AuthRequest create_auth → Call (AuthReply create_auth)
  client_auth_callback req = do out ← invoke create_auth auth_callback_full_method_name req; ok out

  unfoldable pub client_sign_out : AuthRequest create_auth → Call (AuthReply create_auth)
  client_sign_out req = do out ← invoke create_auth sign_out_full_method_name req; ok out

  unfoldable pub client_update_auth : AuthRequest update_auth → Call (AuthReply update_auth)
  client_update_auth req = do out ← invoke update_auth update_auth_full_method_name req; ok out

  unfoldable pub client_delete_auth : AuthRequest delete_auth → Call (AuthReply delete_auth)
  client_delete_auth req = do out ← invoke delete_auth delete_auth_full_method_name req; ok out

  unfoldable pub client_get_auth : AuthRequest get_auth → Call (AuthReply get_auth)
  client_get_auth req = do out ← invoke get_auth get_auth_full_method_name req; ok out

  unfoldable pub client_list_auth : AuthRequest list_auth → Call (AuthReply list_auth)
  client_list_auth req = do out ← invoke list_auth list_auth_full_method_name req; ok out

module _ (Ctx : Type 0) (srv : AuthService) (ctx : Ctx) where
  abbrev Reached : String → (k : Subject) → Call (AuthReply k) → Type 0
  Reached full_method k answer =
      call_auth Ctx (auth_service_desc Ctx) srv none full_method ctx
      ≡ some (answer >>= λ reply. ok (k, reply))

  -- Each full method that the client invokes is the method of the service that it is named after.
  methods-Reached :
      Reached sign_in_full_method_name create_auth (srv.sign_in (request create_auth))
      × Reached auth_callback_full_method_name create_auth (srv.auth_callback (request create_auth))
      × Reached sign_out_full_method_name create_auth (srv.sign_out (request create_auth))
      × Reached update_auth_full_method_name update_auth (srv.update (request update_auth))
      × Reached delete_auth_full_method_name delete_auth (srv.delete (request delete_auth))
      × Reached get_auth_full_method_name get_auth (srv.get (request get_auth))
      × Reached list_auth_full_method_name list_auth (srv.list (request list_auth))
  unfolding call_auth format sign_in_handler auth_callback_handler sign_out_handler
      update_auth_handler delete_auth_handler get_auth_handler list_auth_handler
  methods-Reached = (refl, refl, refl, refl, refl, refl, refl)
