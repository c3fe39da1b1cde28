-- ===== src/Orders/Hash/Panics.antt =====
-- cmd/redis/order/order.go: where a read of an order panics.
use Prim.Native.String.{len}
use kratos_demo.Prelude.{
  Sum-cases, ◌≡◌, ◌↔◌, ◌<◌, refl, inl, inr, ◌⊎◌, ap, ◌∙◌, [], ◌∷◌, String, arith, panic,
}
use kratos_demo.Prelude.Assoc.{Map}
use kratos_demo.Orders.Hash.{Floats, Redis, order_or_missing, get_order_from_redis}

module _ (fl : Floats) (r : Redis fl) where
  order_or_missing-panic_iff :
      (key : String) (m : Map String String)
      → (order_or_missing fl r key m ≡ panic) ↔ (
          (len key < 6)
          × ((entry : String × String) × (rest : Map String String) × (m ≡ entry ∷ rest)))
  unfolding order_or_missing
  order_or_missing-panic_iff key [] = (λ h. absurd (ground (arith, h)), λ (l, (e, rest, h)). cc)
  order_or_missing-panic_iff key (entry ∷ m) =
      (λ h. (ground (arith, h), (entry, m, refl)), λ (l, x). ground (arith, l))

  h_get_all-cases :
      (key : String) (s : r.St)
      → ((e : r.E) × (r.h_get_all key s ≡ inl e))
        ⊎ ((m : Map String String) × (r.h_get_all key s ≡ inr m))
  h_get_all-cases key s = Sum-cases (r.h_get_all key s)

  -- Reading an order panics exactly when the key is shorter than "order:" and its hash has a field.
  get_order_from_redis-panic_iff :
      (key : String) (s : r.St)
      → (get_order_from_redis fl r key s ≡ panic) ↔ (
          (len key < 6)
          × ((entry : String × String) × (rest : Map String String) × (r.h_get_all key s
                ≡ inr (entry ∷ rest))))
  unfolding get_order_from_redis order_or_missing
  get_order_from_redis-panic_iff key s = elim (h_get_all-cases key s) [
    | inl (e, k) ↦ (λ h. absurd (ground (arith, h, k)), λ (l, (entry, rest, h)). absurd (cc (h, k)))
    | inr (m, k) ↦
        let (to, back) = order_or_missing-panic_iff key m in
        (
          λ h.
              let (l, (entry, rest, q)) = to (rw (get_order_from_redis, k) at h) in
              (l, (entry, rest, k ∙ ap inr q)),
          λ (l, (entry, rest, h)).
              rw (get_order_from_redis, k) (back (l, (entry, rest, cc (h, k)))),
        )
  ]
