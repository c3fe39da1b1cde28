-- ===== src/Sharding/Connections.antt =====
-- What cmd/design/sharding/shardding.go answers for a key.
use kratos_demo.Prelude.{
  In, ◌≡◌, ◌↔◌, refl, sym, ap, subst, ◌∙◌, ◌⊎◌, inl, inr, some, List, [], ◌∷◌, String, arith,
  Sum-cases, Bool-cases, ◌==◌, string_comparable, eq_iff,
}
use kratos_demo.Prelude.Assoc.{Map, lookup, insert, lookup-insert}
use kratos_demo.Sharding.{
  Consistent, Shards, hash, dsn, init, add_db_pool, get_db_connection_by_key, pool_of, add_all,
}

-- What the package documents: a key is served by one of the elements added, and only an empty circle
-- has no answer.
pub record IsConsistent (c : Consistent) : Type 1 where
  pub members : c.Circle → List String
  pub new_members : members c.new_circle ≡ []
  pub add_members :
      (name : String) (h : c.Circle) (x : String)
      → In x (members (c.add name h)) ↔ ((x ≡ name) ⊎ In x (members h))
  pub get_member :
      (key : String) (h : c.Circle) (x : String) → c.get key h ≡ inr x → In x (members h)
  pub get_empty : (key : String) (h : c.Circle) (e : c.E) → c.get key h ≡ inl e → members h ≡ []

module _ (c : Consistent) (is : IsConsistent c) where
  -- Every element of the circle has its pool.
  IsPooled : Shards c → Type 0
  IsPooled s =
      (x : String) → In x (is.members s.consistent_hash) → lookup x s.db_pools ≡ some (dsn x)

  lookup-insert-dsn :
      (name x : String) (m : Map String String)
      → (x ≡ name) ⊎ (lookup x m ≡ some (dsn x))
      → lookup x (insert name (dsn name) m) ≡ some (dsn x)
  lookup-insert-dsn name x m h = elim (Bool-cases (◌==◌ {K = String} name x)) [
    | inl e ↦
        rw (lookup-insert name x (dsn name) m, e) (ap (λ y. some (dsn y)) ((eq_iff name x).0 e))
    | inr e ↦
        rw (lookup-insert name x (dsn name) m, e)
          (elim h [ inl k ↦ absurd (ground (arith, e, (eq_iff name x).1 (sym k))) | inr l ↦ l ])
  ]

  add_db_pool-IsPooled :
      (name : String) (s : Shards c) → IsPooled s → IsPooled (add_db_pool c name s)
  unfolding add_db_pool IsPooled
  add_db_pool-IsPooled name s p x i =
      lookup-insert-dsn name x s.db_pools (elim ((is.add_members name s.consistent_hash x).0 i) [
        | inl e ↦ inl e
        | inr j ↦ inr (p x j)
      ])

  add_all-IsPooled :
      (names : List String) (s : Shards c) → IsPooled s → IsPooled (add_all c names s)
  unfolding add_all
  add_all-IsPooled [] s p = p
  add_all-IsPooled (name ∷ names) s p =
      add_all-IsPooled names (add_db_pool c name s) (add_db_pool-IsPooled name s p)

  add_all-members :
      (names : List String) (s : Shards c) (x : String)
      → In x (is.members (add_all c names s).consistent_hash)
        ↔ (In x names ⊎ In x (is.members s.consistent_hash))
  unfolding add_all add_db_pool
  add_all-members [] s x = (λ i. inr i, λ h. elim h [ inl i ↦ absurd i | inr i ↦ i ])
  add_all-members (name ∷ names) s x =
      let rest = add_all-members names (add_db_pool c name s) x in
      let here = is.add_members name s.consistent_hash x in
      (
        λ i. elim (rest.0 i) [
          | inl j ↦ inl (inr j)
          | inr j ↦ elim (here.0 j) [ inl e ↦ inl (inl e) | inr k ↦ inr k ]
        ],
        λ h. elim h [
          | inl (inl e) ↦ rest.1 (inr (here.1 (inl e)))
          | inl (inr j) ↦ rest.1 (inl j)
          | inr k ↦ rest.1 (inr (here.1 (inr k)))
        ],
      )

  init-IsPooled : IsPooled (init c)
  unfolding IsPooled init
  init-IsPooled x i = absurd (subst (In x) is.new_members i)

  init-no_members : (x : String) → In x (is.members (init c).consistent_hash) → ⊥
  unfolding init
  init-no_members x i = subst (In x) is.new_members i

  no_names :
      (names : List String)
      → is.members (add_all c names (init c)).consistent_hash ≡ []
      → names ≡ []
  no_names [] h = refl
  no_names (name ∷ names) h =
      absurd (subst (In name) h ((add_all-members (name ∷ names) (init c) name).1 (inl (inl refl))))

  -- Once pools have been added for some names, a key gets the connection string of one of the names,
  -- the one that the circle has for it, or no name has been added and it gets the circle's error. It
  -- never gets the error that a name has no pool.
  pub get_db_connection_by_key-add_all :
      (names : List String) (key : String)
      → let s = add_all c names (init c) in
        ((name : String) × In name names
          × (c.get key s.consistent_hash ≡ inr name)
          × ((get_db_connection_by_key c key s).0 ≡ inr (dsn name)))
        ⊎ ((names ≡ []) × ((e : c.E) × ((get_db_connection_by_key c key s).0 ≡ inl (hash e))))
  unfolding get_db_connection_by_key IsPooled
  get_db_connection_by_key-add_all names key =
      let s = add_all c names (init c) in
      elim (Sum-cases (c.get key s.consistent_hash)) [
        | inl (e, k) ↦ inr (no_names names (is.get_empty key s.consistent_hash e k), (e, cc k))
        | inr (name, k) ↦
            let i = is.get_member key s.consistent_hash name k in
            let p = add_all-IsPooled names (init c) init-IsPooled name i in
            let g : (get_db_connection_by_key c key s).0
                ≡ (pool_of c key name (lookup name s.db_pools)).0 =
              cc k in
            inl (
              name,
              elim ((add_all-members names (init c) name).0 i) [
                | inl j ↦ j
                | inr j ↦ absurd (init-no_members name j)
              ],
              k,
              g ∙ ap (λ x. (pool_of c key name x).0) p,
            )
      ]
