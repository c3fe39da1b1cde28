-- ===== src/RedisDemos/Leaderboard.antt =====
-- cmd/redis/sortsetx/sortsetx.go: players ranked by their scores. go-redis and float64 are parameters;
-- the ping and the prints are left out.
pub mod Ranks
use kratos_demo.Prelude.{ℕ, suc, zero, ◌⊎◌, inl, inr, Option, none, some, List, [], ◌∷◌, String}
use kratos_demo.Prelude.Int.{ℤ, pos, negsuc}

pub record Redis : Type 1 where
  pub E : Type 0
  pub F : Type 0
  pub St : Type 0
  -- The key, the score and the member.
  pub z_add : String → F → String → St → Option E × St
  -- The key, the first and the last index; then the key and the member.
  pub z_rev_range : String → ℤ → ℤ → St → E ⊎ List String
  pub z_rev_rank : String → String → St → E ⊎ ℕ

abbrev pub game_leaderboard : String
game_leaderboard = "game_leaderboard"

-- The number before.
abbrev pub pred : ℤ → ℤ
pred (pos zero) = negsuc 0
pred (pos (suc n)) = pos n
pred (negsuc n) = negsuc (suc n)

module _ (r : Redis) where
  open r use {E, F, St, z_add, z_rev_range, z_rev_rank}

  -- A failure is only logged; it is the first component.
  unfoldable pub add_player_score : String → F → St → Option E × St
  add_player_score play_id score s = z_add game_leaderboard score play_id s

  -- After a failure, which is logged, the list is nil.
  unfoldable pub get_top_player : ℤ → St → List String × Option E
  get_top_player top_n s = elim (z_rev_range game_leaderboard (pos 0) (pred top_n) s) [
    | inl e ↦ ([], some e)
    | inr result ↦ (result, none)
  ]

  unfoldable pub get_player_rank : String → St → ℤ × Option E
  get_player_rank play_id s = elim (z_rev_rank game_leaderboard play_id s) [
    | inl e ↦ (negsuc 0, some e)
    | inr rank ↦ (pos (suc rank), none)
  ]

  -- `none` is the end by logrus.Fatalf.
  abbrev pub unless_failed : {A : Type 0} → Option E × A → Option A
  unless_failed (none, a) = some a
  unless_failed (some e, a) = none

  unfoldable pub update_player_score : String → F → St → Option St
  update_player_score player_id new_score s =
      unless_failed (z_add game_leaderboard new_score player_id s)

  unfoldable pub add_all_scores : List (String × F) → St → St
  add_all_scores [] s = s
  add_all_scores ((player, score) ∷ scores) s =
      add_all_scores scores (add_player_score player score s).1

  -- What `main` prints: the first top players, player3's rank and the top players after the update.
  pub record Printed : Type 0 where
    pub top_players : List String
    pub rank : ℤ
    pub top_players_updated : List String

  abbrev pub after_rank : List String → F → ℤ × Option E → St → Option Printed
  after_rank top new_score (rank, some e) s = none
  after_rank top new_score (rank, none) s = elim (update_player_score "player4" new_score s) [
    | none ↦ none
    | some s' ↦ some (record {
      top_players = top;
      rank = rank;
      top_players_updated = (get_top_player (pos 3) s').0;
    })
  ]

  -- The scores are those of the six players and player4's new one.
  unfoldable pub main : List (String × F) → F → St → Option Printed
  main scores new_score s =
      let s' = add_all_scores scores s in
      after_rank (get_top_player (pos 3) s').0 new_score (get_player_rank "player3" s') s'
