-- ===== src/Dex.antt =====
-- cmd/grpcclient/grpcclien.go: a password is created, listed, verified and deleted over dex's API, which
-- is a parameter.
pub mod Laws
pub mod Tests
use kratos_demo.Prelude.{Bool, true, false, Option, none, some, List, String}

-- What a call of the API returns: an answer, or an error beside which an answer may stand.
pub data Answer (E A : Type 0) : Type 0 where
  ok : A → Answer E A
  err : Option A → E → Answer E A

pub record Password : Type 0 where
  pub email : String
  pub hash : String
  pub username : String
  pub user_id : String

pub record Dex : Type 1 where
  pub E : Type 0
  pub St : Type 0
  -- The answer is `AlreadyExists`.
  pub create_password_call : Password → St → Answer E Bool × St
  pub list_passwords : St → Answer E (List Password)
  -- The email and the password; the answer is `Verified`.
  pub verify_password : String → String → St → Answer E Bool
  -- The answer is `NotFound`.
  pub delete_password : String → St → Answer E Bool × St

abbrev pub test_password : Password
test_password = record {
  email = "test@example.com";
  hash = "$2a$10$XVMN/Fid.Ks4CXgzo8fpR.iU1khOMsP5g9xQeXuBm1wXjRX8pjUtO";
  username = "test";
  user_id = "test";
}

module _ (dex : Dex) where
  open dex use {E, St, create_password_call, list_passwords, verify_password, delete_password}

  -- The errors that `fmt.Errorf` builds: a text about an email, an error or an answer.
  pub data Error : Type 0 where
    about : String → String → Error
    failed : String → E → Error
    answered : String → Bool → Error

  -- From the deletion on.
  unfoldable pub delete_step : St → Option Error × St
  delete_step s =
      let (answer, s') = delete_password test_password.email s in
      elim answer [
        | ok false ↦ (none, s')
        | ok true ↦ (some (about "Password %s not found" test_password.email), s')
        | err (some true) e ↦ (some (about "Password %s not found" test_password.email), s')
        | err resp e ↦ (some (failed "failed to delete password: %v" e), s')
      ]

  -- From the check of the wrong password on.
  unfoldable pub refuse_step : St → Option Error × St
  refuse_step s = elim (verify_password "test@example.com" "wrong_password" s) [
    | err resp e ↦ (some (failed "failed to run VerifyPassword for incorrect password: %v" e), s)
    | ok true ↦ (some (answered "verify returned true for incorrect password: %v" true), s)
    | ok false ↦ delete_step s
  ]

  -- From the check of the right password on.
  unfoldable pub verify_step : St → Option Error × St
  verify_step s = elim (verify_password "test@example.com" "test1" s) [
    | err resp e ↦ (some (failed "failed to run VerifyPassword for correct password: %v" e), s)
    | ok false ↦ (some (answered "failed to verify correct password: %v" false), s)
    | ok true ↦ refuse_step s
  ]

  -- From the list on.
  unfoldable pub list_step : St → Option Error × St
  list_step s = elim (list_passwords s) [
    | err resp e ↦ (some (failed "failed to list password: %v" e), s)
    | ok passwords ↦ verify_step s
  ]

  -- `createPassword`; `none` is no error.
  unfoldable pub create_password : St → Option Error × St
  create_password s =
      let (answer, s') = create_password_call test_password s in
      elim answer [
        | ok false ↦ list_step s'
        | ok true ↦ (some (about "Password %s already exists" test_password.email), s')
        | err (some true) e ↦ (some (about "Password %s already exists" test_password.email), s')
        | err resp e ↦ (some (failed "failed to create password: %v" e), s')
      ]
