-- ===== src/Dex/Laws.antt =====
-- What createPassword leaves in dex.
use kratos_demo.Prelude.{
  ◌≡◌, ◌≢◌, ◌↔◌, ◌⊎◌, inl, inr, refl, subst, Bool, true, false, Option, none, String, arith,
}
use kratos_demo.Dex.{
  Answer, ok, err, Password, Dex, test_password, delete_step, refuse_step, verify_step, list_step,
  create_password,
}

-- What dex documents: a password is created only under an email that has none, and deleted only where
-- it is; nothing else changes.
pub record IsDex (dex : Dex) : Type 1 where
  pub Has : String → dex.St → Type 0
  pub creates :
      (p : Password) (s : dex.St)
      → (dex.create_password_call p s).0 ≡ ok false
      → (Has p.email s → ⊥)
        × ((x : String) → Has x (dex.create_password_call p s).1 ↔ ((x ≡ p.email) ⊎ Has x s))
  pub deletes :
      (email : String) (s : dex.St)
      → (dex.delete_password email s).0 ≡ ok false
      → (x : String) → Has x (dex.delete_password email s).1 ↔ ((x ≢ email) × Has x s)

module _ (dex : Dex) where
  Answer-cases :
      {A : Type 0} (r : Answer dex.E A)
      → ((a : A) × (r ≡ ok a)) ⊎ ((resp : Option A) × (e : dex.E) × (r ≡ err resp e))
  Answer-cases (ok a) = inl (a, refl)
  Answer-cases (err resp e) = inr (resp, e, refl)

  Answer_of_Bool :
      (r : Answer dex.E Bool)
      → (r ≡ ok true) ⊎ ((r ≡ ok false) ⊎ ((resp : Option Bool) × (e : dex.E) × (r ≡ err resp e)))
  Answer_of_Bool (ok true) = inl refl
  Answer_of_Bool (ok false) = inr (inl refl)
  Answer_of_Bool (err resp e) = inr (inr (resp, e, refl))

  delete_step-inv :
      (s : dex.St)
      → (delete_step dex s).0 ≡ none
      → ((dex.delete_password "test@example.com" s).0 ≡ ok false)
        × ((delete_step dex s).1 ≡ (dex.delete_password "test@example.com" s).1)
  unfolding delete_step
  delete_step-inv s h = elim (Answer_of_Bool (dex.delete_password "test@example.com" s).0) [
    | inl k ↦ absurd (ground (arith, h, k))
    | inr (inl k) ↦ (k, rw (delete_step, k) refl)
    | inr (inr (resp, e, k)) ↦ absurd (ground (arith, h, k))
  ]

  list_step-inv : (s : dex.St) → (list_step dex s).0 ≡ none → list_step dex s ≡ delete_step dex s
  unfolding list_step verify_step refuse_step
  list_step-inv s h = elim (Answer-cases (dex.list_passwords s)) [
    | inr (resp, e, k) ↦ absurd (ground (arith, h, k))
    | inl (ps, k) ↦ elim (Answer_of_Bool (dex.verify_password "test@example.com" "test1" s)) [
      | inr (inl l) ↦ absurd (ground (arith, h, k, l))
      | inr (inr (resp, e, l)) ↦ absurd (ground (arith, h, k, l))
      | inl l ↦ elim (Answer_of_Bool (dex.verify_password "test@example.com" "wrong_password" s)) [
        | inl m ↦ absurd (ground (arith, h, k, l, m))
        | inr (inr (resp, e, m)) ↦ absurd (ground (arith, h, k, l, m))
        | inr (inl m) ↦ rw (list_step, k, verify_step, l, refuse_step, m) refl
      ]
    ]
  ]

  create_password-inv :
      (s : dex.St)
      → (create_password dex s).0 ≡ none
      → ((dex.create_password_call test_password s).0 ≡ ok false)
        × (create_password dex s ≡ list_step dex (dex.create_password_call test_password s).1)
  unfolding create_password
  create_password-inv s h = elim (Answer_of_Bool (dex.create_password_call test_password s).0) [
    | inl k ↦ absurd (ground (arith, h, k))
    | inr (inl k) ↦ (k, rw (create_password, k) refl)
    | inr (inr (resp, e, k)) ↦ absurd (ground (arith, h, k))
  ]

  -- A run without an error leaves a password under the same emails as before, and under the test's
  -- email there was none.
  pub create_password_restores :
      (is : IsDex dex) (s : dex.St)
      → (create_password dex s).0 ≡ none
      → (is.Has "test@example.com" s → ⊥)
        × ((x : String) → is.Has x (create_password dex s).1 ↔ is.Has x s)
  create_password_restores is s h =
      let (k, e) = create_password-inv s h in
      let s' = (dex.create_password_call test_password s).1 in
      let f = list_step-inv s' (rw e at h) in
      let (d, g) = delete_step-inv s' (rw (e, f) at h) in
      let (fresh, created) = is.creates test_password s k in
      let deleted = is.deletes "test@example.com" s' d in
      (
        fresh,
        λ x.
            rw (e, f, g)
              (
                λ i.
                    let (other, j) = (deleted x).0 i in
                    elim ((created x).0 j) [ inl same ↦ absurd (other same) | inr old ↦ old ],
                λ old.
                    (deleted x).1
                      (λ same. fresh (subst (λ y. is.Has y s) same old), (created x).1 (inr old)),
              ),
      )

  list_step_stops :
      (s : dex.St)
      → (dex.verify_password "test@example.com" "test1" s ≡ ok true → ⊥)
      → ((list_step dex s).0 ≢ none) × ((list_step dex s).1 ≡ s)
  unfolding list_step verify_step
  list_step_stops s bad = elim (Answer-cases (dex.list_passwords s)) [
    | inr (resp, e, k) ↦ (λ h. ground (arith, h, k), ground (arith, k))
    | inl (ps, k) ↦ elim (Answer_of_Bool (dex.verify_password "test@example.com" "test1" s)) [
      | inl l ↦ absurd (bad l)
      | inr (inl l) ↦ (λ h. ground (arith, h, k, l), ground (arith, k, l))
      | inr (inr (resp, e, l)) ↦ (λ h. ground (arith, h, k, l), ground (arith, k, l))
    ]
  ]

  -- Where the password has been created and the right password does not verify, the run ends in an
  -- error, and the created password stays in dex.
  pub create_password_leaves :
      (is : IsDex dex) (s : dex.St)
      → (dex.create_password_call test_password s).0 ≡ ok false
      → (dex.verify_password "test@example.com" "test1" (dex.create_password_call test_password s).1
            ≡ ok true
          → ⊥)
      → ((create_password dex s).0 ≢ none) × is.Has "test@example.com" (create_password dex s).1
  unfolding create_password
  create_password_leaves is s k bad =
      let s' = (dex.create_password_call test_password s).1 in
      let e : create_password dex s ≡ list_step dex s' = rw (create_password, k) refl in
      let (fails, stays) = list_step_stops s' bad in
      let (fresh, created) = is.creates test_password s k in
      rw (e, stays) (fails, (created "test@example.com").1 (inl refl))
