-- ===== src/Orders/ActionLog.antt =====
-- cmd/redis/order/order3/order3.go: the log of an order's actions, a Redis list with the newest first.
-- go-redis is a parameter. The Lua script that `main` runs on another key is in Script.antt.
use kratos_demo.Prelude.{
  ◌≡◌, refl, sym, ap, ◌∙◌, ◌⊎◌, inl, inr, Bool-cases, Option, none, List, [], ◌∷◌, String,
  str_append, format, arith, if◌then◌else◌, ◌==◌, string_comparable, eq_iff,
}
use text.Mathlib.TextLemmas.{append_cancel_left, append_cancel_right}
use kratos_demo.Prelude.Int.{ℤ, pos, negsuc}
use kratos_demo.Prelude.Decimal.{itoa, itoa-injective, itoa-IsFree, IsFree, split_first-injective}

pub record OrderAction : Type 0 where
  pub action : String
  pub order_id : String
  pub timestamp : ℤ
  pub details : String

unfoldable pub format_action : OrderAction → String
format_action a =
    format (itoa a.timestamp ∷ "|" ∷ a.action ∷ "|" ∷ a.order_id ∷ "|" ∷ a.details ∷ [])

pub record Redis : Type 1 where
  pub E : Type 0
  pub St : Type 0
  pub l_push : String → String → St → Option E × St
  pub l_range : String → ℤ → ℤ → St → E ⊎ List String

-- What Redis documents of its lists: `LPUSH` puts an item in front of one list, and `LRANGE` from 0 to
-- -1 yields a whole list.
pub record IsRedis (r : Redis) : Type 1 where
  pub items : String → r.St → List String
  pub pushes :
      (key item : String) (s : r.St)
      → (r.l_push key item s).0 ≡ none
      → (k : String)
      → items k (r.l_push key item s).1 ≡ (if k == key then item ∷ items k s else items k s)
  pub ranges :
      (key : String) (s : r.St) (found : List String)
      → r.l_range key (pos 0) (negsuc 0) s ≡ inr found
      → found ≡ items key s

abbrev pub log_key : String → String
log_key order_id = str_append "order:" (str_append order_id ":actions")

log_key-injective : (x y : String) → log_key x ≡ log_key y → x ≡ y
log_key-injective x y h = append_cancel_right x y ":actions" (append_cancel_left "order:" _ _ h)

log_key_same : (x y : String) → (log_key x == log_key y) ≡ (y == x)
log_key_same x y = elim (Bool-cases (y == x)) [
  | inl e ↦ (eq_iff (log_key x) (log_key y)).1 (sym (ap log_key ((eq_iff y x).0 e))) ∙ sym e
  | inr e ↦ elim (Bool-cases (log_key x == log_key y)) [
    | inl f ↦ absurd (
        ground (
          arith,
          e,
          (eq_iff y x).1 (sym (log_key-injective x y ((eq_iff (log_key x) (log_key y)).0 f))),
        ))
    | inr f ↦ f ∙ sym e
  ]
]

-- The actions of one order put in front of what its log has had, one by one.
abbrev pub logged : String → List OrderAction → List String → List String
logged order_id [] log = log
logged order_id (a ∷ acts) log =
    logged order_id acts (if a.order_id == order_id then format_action a ∷ log else log)

module _ (r : Redis) where
  open r use {E, St, l_push, l_range}

  -- The clock's reading is an argument. A failure is only logged; it is the first component.
  unfoldable pub record_order_action : ℤ → String → String → String → St → Option E × St
  record_order_action now order_id action details s =
      l_push (log_key order_id)
        (format_action
          (record { action = action; order_id = order_id; timestamp = now; details = details }))
        s

  unfoldable pub get_order_actions : String → St → E ⊎ List String
  get_order_actions order_id s = l_range (log_key order_id) (pos 0) (negsuc 0) s

  abbrev recorded : OrderAction → St → Option E × St
  recorded a s = record_order_action a.timestamp a.order_id a.action a.details s

  -- Some calls in a row, as `main` has them in a comment.
  unfoldable pub record_all : List OrderAction → St → St
  record_all [] s = s
  record_all (a ∷ acts) s = record_all acts (recorded a s).1

  -- None of them fails.
  unfoldable pub AllRecorded : List OrderAction → St → Type 0
  AllRecorded [] s = Unit {0}
  AllRecorded (a ∷ acts) s = ((recorded a s).0 ≡ none) × AllRecorded acts (recorded a s).1

  module _ (is : IsRedis r) where
    record_all-items :
        (acts : List OrderAction) (s : St) (order_id : String)
        → AllRecorded acts s
        → is.items (log_key order_id) (record_all acts s)
          ≡ logged order_id acts (is.items (log_key order_id) s)
    unfolding record_all AllRecorded record_order_action
    record_all-items [] s order_id h = refl
    record_all-items (a ∷ acts) s order_id (h, all) =
        record_all-items acts (recorded a s).1 order_id all
        ∙ ap (logged order_id acts) (
            is.pushes (log_key a.order_id) (format_action a) s h (log_key order_id)
            ∙ ap
                (λ b.
                  if b
                  then format_action a ∷ is.items (log_key order_id) s
                  else is.items (log_key order_id) s)
                (log_key_same order_id a.order_id))

    -- After some actions have been recorded with no failure, an order's log lists, where it can be
    -- read, that order's actions, the newest first, on top of what it has listed before.
    pub get_order_actions-record_all :
        (acts : List OrderAction) (s : St) (order_id : String) (found : List String)
        → AllRecorded acts s
        → get_order_actions order_id (record_all acts s) ≡ inr found
        → found ≡ logged order_id acts (is.items (log_key order_id) s)
    unfolding get_order_actions
    get_order_actions-record_all acts s order_id found all h =
        is.ranges (log_key order_id) (record_all acts s) found h
        ∙ record_all-items acts s order_id all

same_action :
    (a b : OrderAction)
    → a.action ≡ b.action
    → a.order_id ≡ b.order_id
    → a.timestamp ≡ b.timestamp
    → a.details ≡ b.details
    → a ≡ b
same_action a b x y t d = ground (arith, x, y, t, d)

-- A line of the log tells which action it stands for, if neither the action nor the order's id has a
-- bar in it.
pub format_action-injective :
    (a b : OrderAction)
    → IsFree 124 a.action
    → IsFree 124 a.order_id
    → IsFree 124 b.action
    → IsFree 124 b.order_id
    → format_action a ≡ format_action b
    → a ≡ b
unfolding format_action format
format_action-injective a b f g f' g' h =
    let (t, h₁) =
      split_first-injective "|" _ _ _ _ (itoa-IsFree 124 a.timestamp (omega arith))
        (itoa-IsFree 124 b.timestamp (omega arith)) h in
    let (x, h₂) = split_first-injective "|" _ _ _ _ f f' h₁ in
    let (y, h₃) = split_first-injective "|" _ _ _ _ g g' h₂ in
    let d = append_cancel_right a.details b.details "" h₃ in
    same_action a b x y (itoa-injective a.timestamp b.timestamp t) d
