-- ===== src/Dex/Tests.antt =====
-- createPassword on a dex that knows of each email whether it has a password.
use kratos_demo.Prelude.{
  ◌≡◌, ◌↔◌, inl, inr, refl, Bool, true, false, none, [], String, arith, if◌then◌else◌, ◌==◌,
  string_comparable, eq_iff, Bool-cases,
}
use kratos_demo.Dex.{ok, Dex, delete_step, refuse_step, verify_step, list_step, create_password}
use kratos_demo.Dex.Laws.{IsDex, create_password_restores}

-- The first argument tells whether the right password verifies.
abbrev server : Bool → Dex
server right = record {
  E = String;
  St = String → Bool;
  create_password_call = λ p s.
      if s p.email then (ok true, s) else (ok false, λ x. if x == p.email then true else s x);
  list_passwords = λ s. ok [];
  verify_password = λ email password s. ok (if password == "test1" then right else false);
  delete_password = λ email s.
      if s email then (ok false, λ x. if x == email then false else s x) else (ok true, s);
}

server-IsDex : (right : Bool) → IsDex (server right)
server-IsDex right = record {
  Has = λ x s. s x ≡ true;
  creates = λ p s h. elim (Bool-cases (s p.email)) [
    | inl e ↦ absurd (ground (arith, h, e))
    | inr e ↦ (λ g. ground (arith, g, e), λ x. rw e (ground (arith, eq_iff x p.email)))
  ];
  deletes = λ email s h x. elim (Bool-cases (s email)) [
    | inl e ↦ rw e (ground (arith, eq_iff x email))
    | inr e ↦ absurd (ground (arith, h, e))
  ];
}

abbrev empty : String → Bool
empty = λ x. false

server_runs : (create_password (server true) empty).0 ≡ none
unfolding create_password list_step verify_step refuse_step delete_step
server_runs = refl

create_password_restores_example :
    ((server-IsDex true).Has "test@example.com" empty → ⊥)
    × ((x : String)
        → (server-IsDex true).Has x (create_password (server true) empty).1
          ↔ (server-IsDex true).Has x empty)
create_password_restores_example =
    create_password_restores (server true) (server-IsDex true) empty server_runs
