-- ===== src/RedisDemos/Values.antt =====
-- cmd/redis/stringx/string.go and cmd/redis/jsonx/jsonx.go: a text and a JSON value, set and read back.
-- go-redis is a parameter.
use kratos_demo.Prelude.{ℕ, Option, none, some, List, [], ◌∷◌, ◌++◌, String}

-- What is logged, as an error or as information.
pub data Line (E : Type 0) : Type 0 where
  error : E → Line E
  info : String → Line E

pub record Strings : Type 1 where
  pub E : Type 0
  pub St : Type 0
  pub ping : St → Option E
  -- The key, the value and the time to live.
  pub set : String → String → ℕ → St → Option E × St
  -- `Val()` of a `Get`, which is empty where it fails.
  pub get : String → St → String

module _ (r : Strings) where
  open r use {E, St, ping, set, get}

  abbrev pub log_value : Option E × St → List (Line E)
  log_value (some e, s) = error e ∷ []
  log_value (none, s) = info (get "user:1001" s) ∷ []

  -- What `main` of string.go logs; a failure of the ping or of the set ends it.
  unfoldable pub main_string : St → List (Line E)
  main_string s = elim (ping s) [
    | some e ↦ error e ∷ []
    | none ↦ log_value (set "user:1001" "Join" 0 s)
  ]

pub record Json : Type 1 where
  pub E : Type 0
  pub St : Type 0
  pub ping : St → Option E
  -- The key, the path and the value.
  pub json_set : String → String → String → St → Option E × St
  -- The text beside the error.
  pub json_get : String → St → String × Option E

module _ (r : Json) where
  open r use {E, St, ping, json_set, json_get}

  abbrev pub logged : Option E → List (Line E)
  logged none = []
  logged (some e) = error e ∷ []

  unfoldable pub set_json_data : String → String → St → List (Line E) × St
  set_json_data key value s = let (failed, s') = json_set key "." value s in (logged failed, s')

  unfoldable pub get_json_data : String → St → String × Option E
  get_json_data key s = json_get key s

  -- What `main` of jsonx.go logs for a value; `none` is a panic, where the ping fails. The text that
  -- is read is logged after an error, too.
  unfoldable pub main_json : String → St → Option (List (Line E))
  main_json value s = elim (ping s) [
    | some e ↦ none
    | none ↦
        let (set_lines, s') = set_json_data "user:1" value s in
        let (res, failed) = get_json_data "user:1" s' in
        some (set_lines ++ logged failed ++ (info res ∷ []))
  ]
