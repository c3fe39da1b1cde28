-- ===== src/RedisDemos/Tests.antt =====
-- The theorems on the leaderboard and on the scan, at a fixed ranking and at a scan of two rounds.
use kratos_demo.Prelude.{
  In, IsDistinct, ℕ, zero, suc, ◌≤◌, ◌≡◌, ◌↔◌, refl, ◌⊎◌, inl, inr, none, some, List, [], ◌∷◌,
  get_elem?, String, arith, if◌then◌else◌, ◌==◌, string_comparable, eq_iff, Bool-cases,
}
use kratos_demo.Prelude.Int.{pos}
use kratos_demo.RedisDemos.Leaderboard
use kratos_demo.RedisDemos.Leaderboard.{game_leaderboard, get_top_player, get_player_rank}
use kratos_demo.RedisDemos.Leaderboard.Ranks.{up_to, IsRanked, get_top_player-get_player_rank}
use kratos_demo.RedisDemos.Scan
use kratos_demo.RedisDemos.Scan.{Scans, sscan, scan_loop, scan_loop_iff}

abbrev players : List String
players = "player6" ∷ "player2" ∷ []

rank_of : String → String ⊎ ℕ
rank_of player =
    if player == "player6" then inr 0 else (if player == "player2" then inr 1 else inl "redis: nil")

abbrev board : Leaderboard.Redis
board = record {
  E = String;
  F = ℕ;
  St = Unit {0};
  z_add = λ key score member s. (none, s);
  z_rev_range = λ key start stop s. inr (up_to stop players);
  z_rev_rank = λ key player s. rank_of player;
}

rank_of-get_elem? :
    (player : String) (n : ℕ) → rank_of player ≡ inr n → get_elem? players n ≡ some player
unfolding rank_of
rank_of-get_elem? player n h = elim (Bool-cases (player == "player6")) [
  | inl e ↦
      let k : 0 ≡ n = ground (arith, e, h) in let p = (eq_iff player "player6").0 e in cc (k, p)
  | inr e ↦ elim (Bool-cases (player == "player2")) [
    | inl f ↦
        let k : 1 ≡ n = ground (arith, e, f, h) in
        let p = (eq_iff player "player2").0 f in cc (k, p)
    | inr f ↦ absurd (ground (arith, e, f, h))
  ]
]

players-IsDistinct : IsDistinct players
players-IsDistinct = (
  λ i. elim i [ inl e ↦ absurd (ground (arith, (eq_iff "player6" "player2").1 e)) | inr j ↦ j ],
  (λ i. i, tt),
)

board-IsRanked : IsRanked board
board-IsRanked = record {
  ranking = λ s. players;
  distinct = λ s. players-IsDistinct;
  ranges = λ stop s found h. cc h;
  ranks = λ player s n h. rank_of-get_elem? player n h;
}

abbrev player2 : String
player2 = "player2"

get_top_player-get_player_rank_example :
    (k : ℕ) × (pos 2 ≡ pos (suc k)) × (In player2 ("player6" ∷ []) ↔ (suc k ≤ 1))
unfolding get_top_player get_player_rank rank_of
get_top_player-get_player_rank_example =
    get_top_player-get_player_rank board board-IsRanked 0 tt ("player6" ∷ []) "player2" (pos 2) refl
      refl

abbrev two_rounds : Scan.Redis
two_rounds = record {
  E = String;
  s_scan = λ round key cursor pattern count. elim round [
    | zero ↦ inr ("member808" ∷ [], 5)
    | suc _ ↦ inr ([], 0)
  ];
}

abbrev pages : List (ℕ × List String)
pages = (5, "member808" ∷ []) ∷ (0, []) ∷ []

scan_loop_iff_example :
    (scan_loop two_rounds 3 0 0 ≡ some (pages, none)) ↔ Scans two_rounds 0 0 pages none
scan_loop_iff_example = scan_loop_iff two_rounds 3 pages none (omega arith)

scan_runs : scan_loop two_rounds 3 0 0 ≡ some (pages, none)
unfolding scan_loop sscan
scan_runs = refl
