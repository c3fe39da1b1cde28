-- ===== src/Generics/DemoStruct.antt =====
-- `DemoStruct` of cmd/fanxing/fanxing.go: a map with methods, against a function as its specification.
use kratos_demo.Prelude.{
  ℕ, ◌≡◌, ◌↔◌, refl, sym, ap₂, inl, inr, Bool, true, false, Option, none, some, List, [], ◌∷◌, In,
  IsDistinct, length, length-map, Comparable, ◌==◌, if◌then◌else◌, Bool-cases, arith,
}
use kratos_demo.Prelude.Assoc.{
  Map, lookup, insert, delete, lookup-insert, lookup-delete, keys, values,
}

-- `Equal` compares two keys.
unfoldable pub equal : {K : Type 0} ⦃c : Comparable K⦄ → K → K → Bool
equal a b = a == b

-- A call of a method, and what it returns.
pub data Call (K V : Type 0) : Type 0 where
  call_set : K → V → Call K V
  call_del call_get call_exists : K → Call K V

pub data Answer (V : Type 0) : Type 0 where
  nothing : Answer V
  value : V → Answer V
  truth : Bool → Answer V

module _ {K V : Type 0} ⦃c : Comparable K⦄ where
  -- The struct is its field `Data`.
  abbrev pub new_demo_struct : Map K V
  new_demo_struct = []

  unfoldable pub set : K → V → Map K V → Map K V
  set k v d = insert k v d

  -- `zero` is the zero value of V.
  unfoldable pub get : V → K → Map K V → V
  get zero k d = elim (lookup k d) [ none ↦ zero | some v ↦ v ]

  unfoldable pub del : K → Map K V → Map K V
  del k d = delete k d

  unfoldable pub len : Map K V → ℕ
  len d = length d

  -- The loops of `Keys` and `Values`, in one of the orders that Go may take.
  unfoldable pub keys_of : Map K V → List K
  keys_of d = keys d

  unfoldable pub values_of : Map K V → List V
  values_of d = values d

  unfoldable pub exists : K → Map K V → Bool
  exists k d = elim (lookup k d) [ none ↦ false | some _ ↦ true ]

  -- Every key stands once.
  abbrev pub IsUnique : Map K V → Type 0
  IsUnique [] = Unit {0}
  IsUnique ((k, v) ∷ d) = (lookup k d ≡ none) × IsUnique d

  insert-IsUnique : (k : K) (v : V) (d : Map K V) → IsUnique d → IsUnique (insert k v d)
  unfolding insert lookup
  insert-IsUnique k v [] h = (refl, tt)
  insert-IsUnique k v ((j, w) ∷ d) (n, h) = elim (Bool-cases (j == k)) [
    | inl e ↦ rw (insert, e) (rw ((c.same_iff j k).0 e) at n, h)
    | inr e ↦
        rw (insert, e)
          (
            ground (arith, e, n, lookup-insert k j v d, c.same_iff j k, c.same_iff k j),
            insert-IsUnique k v d h,
          )
  ]

  delete-IsUnique : (k : K) (d : Map K V) → IsUnique d → IsUnique (delete k d)
  unfolding delete
  delete-IsUnique k [] h = tt
  delete-IsUnique k ((j, w) ∷ d) (n, h) = elim (Bool-cases (j == k)) [
    | inl e ↦ rw (delete, e) (delete-IsUnique k d h)
    | inr e ↦ rw (delete, e) (ground (arith, e, n, lookup-delete k j d), delete-IsUnique k d h)
  ]

  In-keys : (k : K) (d : Map K V) → In k (keys d) ↔ (exists k d ≡ true)
  unfolding exists lookup
  In-keys k [] = (λ i. absurd i, λ h. ground (arith, h))
  In-keys k ((j, v) ∷ d) = elim (Bool-cases (j == k)) [
    | inl e ↦ (λ i. ground (arith, e), λ h. inl (sym ((c.same_iff j k).0 e)))
    | inr e ↦ (
      λ i. elim i [
        | inl p ↦ absurd (ground (arith, e, (c.same_iff j k).1 (sym p)))
        | inr m ↦ ground (arith, e, (In-keys k d).0 m)
      ],
      λ h. inr ((In-keys k d).1 (ground (arith, e, h))),
    )
  ]

  step : V → Call K V → Map K V → Answer V × Map K V
  step zero (call_set k v) d = (nothing, set k v d)
  step zero (call_del k) d = (nothing, del k d)
  step zero (call_get k) d = (value (get zero k d), d)
  step zero (call_exists k) d = (truth (exists k d), d)

  -- The answers of some calls in a row, and the map afterwards.
  unfoldable pub run : V → List (Call K V) → Map K V → List (Answer V) × Map K V
  unfolding step
  run zero [] d = ([], d)
  run zero (call ∷ calls) d =
      let (answer, d') = step zero call d in
      let (answers, d'') = run zero calls d' in (answer ∷ answers, d'')

  -- The specification: a function that tells which value a key has.
  spec_step : V → Call K V → (K → Option V) → Answer V × (K → Option V)
  spec_step zero (call_set k v) s = (nothing, λ j. if k == j then some v else s j)
  spec_step zero (call_del k) s = (nothing, λ j. if k == j then none else s j)
  spec_step zero (call_get k) s = (elim (s k) [ none ↦ value zero | some v ↦ value v ], s)
  spec_step zero (call_exists k) s = (elim (s k) [ none ↦ truth false | some v ↦ truth true ], s)

  unfoldable pub run_spec : V → List (Call K V) → (K → Option V) → List (Answer V) × (K → Option V)
  unfolding spec_step
  run_spec zero [] s = ([], s)
  run_spec zero (call ∷ calls) s =
      let (answer, s') = spec_step zero call s in
      let (answers, s'') = run_spec zero calls s' in (answer ∷ answers, s'')

  step-spec_step :
      (zero : V) (call : Call K V) (d : Map K V) (s : K → Option V)
      → ((j : K) → lookup j d ≡ s j)
      → ((step zero call d).0 ≡ (spec_step zero call s).0)
        × ((j : K) → lookup j (step zero call d).1 ≡ (spec_step zero call s).1 j)
  unfolding step spec_step set del get exists
  step-spec_step zero (call_set k v) d s h = (refl, λ j. ground (arith, lookup-insert k j v d, h j))
  step-spec_step zero (call_del k) d s h = (refl, λ j. ground (arith, lookup-delete k j d, h j))
  step-spec_step zero (call_get k) d s h = (ground (arith, h k), h)
  step-spec_step zero (call_exists k) d s h = (ground (arith, h k), h)

  -- The struct is the map that the specification describes: on any calls it gives the same answers,
  -- and ends with the same value, or none, under every key.
  run-run_spec :
      (zero : V) (calls : List (Call K V)) (d : Map K V) (s : K → Option V)
      → ((j : K) → lookup j d ≡ s j)
      → ((run zero calls d).0 ≡ (run_spec zero calls s).0)
        × ((j : K) → lookup j (run zero calls d).1 ≡ (run_spec zero calls s).1 j)
  unfolding run run_spec
  run-run_spec zero [] d s h = (refl, h)
  run-run_spec zero (call ∷ calls) d s h =
      let (same, h') = step-spec_step zero call d s h in
      let (rest, end) = run-run_spec zero calls (step zero call d).1 (spec_step zero call s).1 h' in
      (ap₂ ◌∷◌ same rest, end)

  IsUnique-IsDistinct : (d : Map K V) → IsUnique d → IsDistinct (keys d)
  unfolding exists
  IsUnique-IsDistinct [] h = tt
  IsUnique-IsDistinct ((k, v) ∷ d) (n, h) =
      (λ i. ground (arith, n, (In-keys k d).0 i), IsUnique-IsDistinct d h)

  run-IsUnique :
      (zero : V) (calls : List (Call K V)) (d : Map K V)
      → IsUnique d
      → IsUnique (run zero calls d).1
  unfolding run step set del
  run-IsUnique zero [] d h = h
  run-IsUnique zero (call_set k v ∷ calls) d h =
      run-IsUnique zero calls (set k v d) (insert-IsUnique k v d h)
  run-IsUnique zero (call_del k ∷ calls) d h =
      run-IsUnique zero calls (del k d) (delete-IsUnique k d h)
  run-IsUnique zero (call_get k ∷ calls) d h = run-IsUnique zero calls d h
  run-IsUnique zero (call_exists k ∷ calls) d h = run-IsUnique zero calls d h

  -- After any calls on a new struct, Keys lists each key that Exists finds, once, and no other, and
  -- Len counts them.
  pub keys_of-run :
      (zero : V) (calls : List (Call K V))
      → let d = (run zero calls new_demo_struct).1 in
        IsDistinct (keys_of d)
        × ((k : K) → In k (keys_of d) ↔ (exists k d ≡ true))
        × (len d ≡ length (keys_of d))
  unfolding keys_of len
  keys_of-run zero calls =
      let d = (run zero calls new_demo_struct).1 in
      (
        IsUnique-IsDistinct d (run-IsUnique zero calls new_demo_struct tt),
        λ k. In-keys k d,
        sym (length-map (λ p. p.0) d),
      )
