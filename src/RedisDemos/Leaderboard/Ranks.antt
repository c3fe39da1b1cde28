-- ===== src/RedisDemos/Leaderboard/Ranks.antt =====
-- How the ranks of cmd/redis/sortsetx/sortsetx.go agree with its lists of top players.
use kratos_demo.Prelude.{
  In, IsDistinct, ℕ, zero, suc, ◌-◌, ◌≤◌, ◌<◌, ◌≡◌, ◌↔◌, refl, sym, ap, subst, ◌∙◌, inl, inr, none,
  some, List, [], ◌∷◌, take, length, get_elem?, String, arith, Sum-cases,
}
use kratos_demo.Prelude.Int.{ℤ, pos, negsuc}
use kratos_demo.RedisDemos.Leaderboard.{
  Redis, game_leaderboard, pred, get_top_player, get_player_rank,
}

-- The indices from 0 to an end; a negative end counts from the last entry.
abbrev pub up_to : ℤ → List String → List String
up_to (pos n) xs = take (suc n) xs
up_to (negsuc n) xs = take (length xs - n) xs

-- What Redis documents of the one sorted set: ZREVRANGE lists it from the greatest score on, and
-- ZREVRANK is the index of a member in that order.
pub record IsRanked (r : Redis) : Type 1 where
  pub ranking : r.St → List String
  pub distinct : (s : r.St) → IsDistinct (ranking s)
  pub ranges :
      (stop : ℤ) (s : r.St) (found : List String)
      → r.z_rev_range game_leaderboard (pos 0) stop s ≡ inr found
      → found ≡ up_to stop (ranking s)
  pub ranks :
      (player : String) (s : r.St) (n : ℕ)
      → r.z_rev_rank game_leaderboard player s ≡ inr n
      → get_elem? (ranking s) n ≡ some player

get_elem?-In : (xs : List String) (n : ℕ) (x : String) → get_elem? xs n ≡ some x → In x xs
get_elem?-In [] n x h = absurd (cc h)
get_elem?-In (y ∷ xs) zero x h = inl (cc h)
get_elem?-In (y ∷ xs) (suc n) x h = inr (get_elem?-In xs n x h)

-- An entry of a list without repetition is among the first ones exactly if its index says so.
In-take_iff :
    (k : ℕ) (xs : List String) (n : ℕ) (x : String)
    → IsDistinct xs
    → get_elem? xs n ≡ some x
    → In x (take k xs) ↔ (n < k)
In-take_iff zero xs n x d h = (λ i. absurd i, λ l. absurd (omega (arith, l)))
In-take_iff (suc k) [] n x d h = absurd (cc h)
In-take_iff (suc k) (y ∷ xs) zero x d h = (λ i. omega arith, λ l. inl (cc h))
In-take_iff (suc k) (y ∷ xs) (suc n) x (fresh, d) h =
    let rest = In-take_iff k xs n x d h in
    (
      λ i. elim i [
        | inl e ↦ absurd (fresh (subst (λ z. In z xs) e (get_elem?-In xs n x h)))
        | inr j ↦ omega (arith, rest.0 j)
      ],
      λ l. inr (rest.1 (omega (arith, l))),
    )

minus_zero : (n : ℕ) → n - 0 ≡ n
minus_zero n = omega arith

take-length : (xs : List String) → take (length xs) xs ≡ xs
take-length [] = refl
take-length (x ∷ xs) = ap (λ ys. x ∷ ys) (take-length xs)

module _ (r : Redis) (is : IsRanked r) where
  open r use {E, St, z_rev_range, z_rev_rank}

  top-up_to :
      (n : ℤ) (s : St) (top : List String)
      → get_top_player r n s ≡ (top, none)
      → top ≡ up_to (pred n) (is.ranking s)
  unfolding get_top_player
  top-up_to n s top h = elim (Sum-cases (z_rev_range game_leaderboard (pos 0) (pred n) s)) [
    | inl (e, k) ↦ absurd (cc (h, k))
    | inr (found, k) ↦ let e : found ≡ top = cc (h, k) in sym e ∙ is.ranges (pred n) s found k
  ]

  rank-get_elem? :
      (player : String) (s : St) (rank : ℤ)
      → get_player_rank r player s ≡ (rank, none)
      → (n : ℕ) × (rank ≡ pos (suc n)) × (get_elem? (is.ranking s) n ≡ some player)
  unfolding get_player_rank
  rank-get_elem? player s rank h = elim (Sum-cases (z_rev_rank game_leaderboard player s)) [
    | inl (e, k) ↦ absurd (cc (h, k))
    | inr (n, k) ↦ (n, cc (h, k), is.ranks player s n k)
  ]

  -- Where both calls succeed, a player is among the top n, for an n above zero, exactly if the player's
  -- rank is at most n. The rank is then above zero.
  pub get_top_player-get_player_rank :
      (n : ℕ) (s : St) (top : List String) (player : String) (rank : ℤ)
      → get_top_player r (pos (suc n)) s ≡ (top, none)
      → get_player_rank r player s ≡ (rank, none)
      → (k : ℕ) × (rank ≡ pos (suc k)) × (In player top ↔ (suc k ≤ suc n))
  get_top_player-get_player_rank n s top player rank h g =
      let (k, e, at_k) = rank-get_elem? player s rank g in
      let iff = In-take_iff (suc n) (is.ranking s) k player (is.distinct s) at_k in
      let same = top-up_to (pos (suc n)) s top h in
      (
        k,
        e,
        (
          λ i. omega (arith, iff.0 (subst (In player) same i)),
          λ l. subst (In player) (sym same) (iff.1 (omega (arith, l))),
        ),
      )

  -- The top 0 are all players.
  pub get_top_player-all :
      (s : St) (top : List String) → get_top_player r (pos 0) s ≡ (top, none) → top ≡ is.ranking s
  get_top_player-all s top h =
      top-up_to (pos 0) s top h
      ∙ ap (λ k. take k (is.ranking s)) (minus_zero (length (is.ranking s)))
      ∙ take-length (is.ranking s)
