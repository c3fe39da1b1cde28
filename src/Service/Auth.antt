-- ===== src/Service/Auth.antt =====
-- internal/service/auth.go: AuthService, whose methods answer with empty replies. No server registers
-- it.
use kratos_demo.Prelude.{ok}
use kratos_demo.Service.Kratos.{Call}

-- The messages of auth.proto are named after these, and have no field.
pub data Subject : Type 0 where
  create_auth update_auth delete_auth get_auth list_auth : Subject

pub data AuthRequest : Subject → Type 0 where
  request : (k : Subject) → AuthRequest k

pub data AuthReply : Subject → Type 0 where
  reply : (k : Subject) → AuthReply k

pub record AuthService : Type 0 where
  pub sign_in : AuthRequest create_auth → Call (AuthReply create_auth)
  pub auth_callback : AuthRequest create_auth → Call (AuthReply create_auth)
  pub sign_out : AuthRequest create_auth → Call (AuthReply create_auth)
  pub update : AuthRequest update_auth → Call (AuthReply update_auth)
  pub delete : AuthRequest delete_auth → Call (AuthReply delete_auth)
  pub get : AuthRequest get_auth → Call (AuthReply get_auth)
  pub list : AuthRequest list_auth → Call (AuthReply list_auth)

unfoldable pub new_auth_service : AuthService
new_auth_service = record {
  sign_in = λ req. ok (reply create_auth);
  auth_callback = λ req. ok (reply create_auth);
  sign_out = λ req. ok (reply create_auth);
  update = λ req. ok (reply update_auth);
  delete = λ req. ok (reply delete_auth);
  get = λ req. ok (reply get_auth);
  list = λ req. ok (reply list_auth);
}
