-- ===== src/Lottery/Warehouse/Ids.antt =====
-- The ids of cmd/design/lottery/lottery.go's tickets, and the keys of its cache.
use kratos_demo.Prelude.{
  ◌≡◌, ◌≢◌, ◌↔◌, ◌∙◌, ◌⊎◌, inl, inr, Option, none, some, List, ℕ, ◌+◌, ◌*◌, ◌≤◌, ◌<◌, String,
  format, arith, Sum-cases, Option-cases,
}
use text.Mathlib.TextLemmas.{append_cancel_left, append_cancel_right}
use kratos_demo.Prelude.Int.{ℤ}
use kratos_demo.Prelude.Decimal.{itoa-injective, itoa-IsFree, split_first-injective}
use kratos_demo.Lottery.Warehouse.{
  Basics, LotteryType, LotteryTicket, Cache, cache_key, cache_ticket, create_lottery_ticket,
  StorageStrategy, Drivers, main, parsed, pgx_uri, mongo_uri,
}

module _ (b : Basics) where
  -- The ids of two tickets agree exactly when they are made for one user at one nanosecond.
  pub create_lottery_ticket-same_id :
      (n n' : ℤ) (now now' : b.Time) (kind kind' : LotteryType) (user user' : String)
      (xs xs' : List (List ℤ))
      → ((create_lottery_ticket b n now kind user xs).id
          ≡ (create_lottery_ticket b n' now' kind' user' xs').id)
        ↔ ((n ≡ n') × (user ≡ user'))
  unfolding create_lottery_ticket format
  create_lottery_ticket-same_id n n' now now' kind kind' user user' xs xs' = (
    λ h.
        let (x, y) =
          split_first-injective "_" _ _ _ _ (itoa-IsFree 95 n (omega arith))
            (itoa-IsFree 95 n' (omega arith)) h in
        (itoa-injective n n' x, append_cancel_right user user' "" y),
    λ (x, y). cc,
  )

  -- What Redis documents of `SET` and `GET`: a key set with a time to live can be read until that has
  -- passed on the server's clock, and no other key changes. `get at` is a `GET` at a time, in
  -- nanoseconds, if nothing is set before.
  pub record IsCache (c : Cache b) : Type 1 where
    pub clock : c.Entries → ℕ
    pub get : ℕ → String → c.Entries → Option String
    pub sets :
        (key bytes : String) (ttl : ℕ) (s : c.Entries) (at : ℕ)
        → (c.set key bytes ttl s).0 ≡ none
        → clock s ≤ at
        → at < clock s + ttl
        → get at key (c.set key bytes ttl s).1 ≡ some bytes
    pub others :
        (key bytes : String) (ttl : ℕ) (s : c.Entries) (at : ℕ) (k : String)
        → k ≢ key
        → get at k (c.set key bytes ttl s).1 ≡ get at k s

  module _ (c : Cache b) (is : IsCache c) where
    cache_ticket-get :
        (t : LotteryTicket b) (s : c.Entries) (at : ℕ)
        → (cache_ticket b c t s).0 ≡ none
        → is.clock s ≤ at
        → at < is.clock s + 24 * 3600 * 1_000_000_000
        → (bytes : String) × (c.marshal t ≡ inr bytes)
          × (is.get at (cache_key b t.id) (cache_ticket b c t s).1 ≡ some bytes)
    unfolding cache_ticket
    cache_ticket-get t s at h early late = elim (Sum-cases (c.marshal t)) [
      | inl (e, k) ↦ absurd (cc (h, k))
      | inr (bytes, k) ↦
          let g : (c.set (cache_key b t.id) bytes 86400000000000 s).0 ≡ none = cc (h, k) in
          let r = is.sets (cache_key b t.id) bytes 86400000000000 s at g early late in
          (bytes, k, cc (r, k))
    ]

    cache_key-injective : (x y : String) → cache_key b x ≡ cache_key b y → x ≡ y
    unfolding format
    cache_key-injective x y h = append_cancel_right x y "" (append_cancel_left "ticket:" _ _ h)

    cache_ticket-others :
        (t : LotteryTicket b) (s : c.Entries) (at : ℕ) (id : String)
        → id ≢ t.id
        → is.get at (cache_key b id) (cache_ticket b c t s).1 ≡ is.get at (cache_key b id) s
    unfolding cache_ticket
    cache_ticket-others t s at id n = elim (Sum-cases (c.marshal t)) [
      | inl (e, k) ↦ cc k
      | inr (bytes, k) ↦
          let r =
            is.others (cache_key b t.id) bytes 86400000000000 s at (cache_key b id)
              (λ h. n (cache_key-injective id t.id h)) in
          cc (r, k)
    ]

    -- A cached ticket stays readable for 24 hours when a ticket of another user, or of another
    -- nanosecond, is cached after it: under its id stands its own JSON.
    pub cache_ticket-keeps :
        (n n' : ℤ) (now now' : b.Time) (kind kind' : LotteryType) (user user' : String)
        (xs xs' : List (List ℤ)) (s : c.Entries) (at : ℕ)
        → ((n ≡ n') × (user ≡ user') → ⊥)
        → (cache_ticket b c (create_lottery_ticket b n now kind user xs) s).0 ≡ none
        → is.clock s ≤ at
        → at < is.clock s + 24 * 3600 * 1_000_000_000
        → let t = create_lottery_ticket b n now kind user xs in
          let t' = create_lottery_ticket b n' now' kind' user' xs' in
          (bytes : String) × (c.marshal t ≡ inr bytes)
          × (is.get at (cache_key b t.id) (cache_ticket b c t' (cache_ticket b c t s).1).1
              ≡ some bytes)
    cache_ticket-keeps n n' now now' kind kind' user user' xs xs' s at differ h early late =
        let t = create_lottery_ticket b n now kind user xs in
        let t' = create_lottery_ticket b n' now' kind' user' xs' in
        let (bytes, m, g) = cache_ticket-get t s at h early late in
        (
          bytes,
          m,
          cache_ticket-others t' (cache_ticket b c t s).1 at t.id (λ e.
                differ
                  ((create_lottery_ticket-same_id n n' now now' kind kind' user user' xs xs').0 e))
              ∙ g,
        )

  -- `main` panics exactly when connecting to PostgreSQL does or connecting to MongoDB fails.
  pub main-panics_iff :
      (strategy : StorageStrategy b) (c : Cache b) (d : Drivers b) (n : ℤ) (now : b.Time)
      (s : strategy.St) (entries : c.Entries)
      → (main b strategy c d n now s entries ≡ none) ↔ (
          (d.connect_config (parsed b (d.parse_config (pgx_uri b))) ≡ none)
          ⊎ ((e : b.E) × (d.connect_mongo (mongo_uri b) ≡ some e)))
  unfolding main
  main-panics_iff strategy c d n now s entries =
      elim (Option-cases (d.connect_config (parsed b (d.parse_config (pgx_uri b))))) [
        | inl k ↦ (λ h. inl k, λ h. cc k)
        | inr (pool, k) ↦ elim (Option-cases (d.connect_mongo (mongo_uri b))) [
          | inl l ↦ (
            λ h. absurd (cc (h, k, l)),
            λ x. elim x [ inl h ↦ absurd (cc (h, k)) | inr (e, h) ↦ absurd (cc (h, l)) ],
          )
          | inr (e, l) ↦ (λ h. inr (e, l), λ x. cc (k, l))
        ]
      ]
