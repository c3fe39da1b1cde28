-- ===== src/RedisDemos/Scan.antt =====
-- cmd/redis/setx/setx.go: a set of many members, and the scan of it. go-redis is a parameter; a scan
-- is asked for the number of its round, since the set may change between two rounds.
use kratos_demo.Prelude.{
  ℕ, zero, suc, ◌+◌, ◌<◌, ◌≡◌, ◌↔◌, refl, sym, ap, subst, ◌∙◌, ◌⊎◌, inl, inr, Option, none, some,
  List, [], ◌∷◌, length, String, str_append, arith, Bool, true, false,
}
use kratos_demo.Prelude.Int.{pos}
use kratos_demo.Prelude.Decimal.{itoa}

pub record Redis : Type 1 where
  pub E : Type 0
  -- Round, key, cursor, pattern and count.
  pub s_scan : ℕ → String → ℕ → String → ℕ → E ⊎ (List String × ℕ)

-- The names of the loop from 11 to 999.
abbrev pub names_from : ℕ → ℕ → List String
names_from i zero = []
names_from i (suc n) = str_append "member" (itoa (pos i)) ∷ names_from (i + 1) n

abbrev pub members : List String
members = names_from 11 989

module _ (r : Redis) where
  open r use {E, s_scan}

  pub record Scanned : Type 0 where
    pub cursor : ℕ
    pub result : List String
    pub failed : Option E

  abbrev pub scanned : E ⊎ (List String × ℕ) → Scanned
  scanned (inl e) = record { cursor = 0; result = []; failed = some e }
  scanned (inr (result, cursor)) = record { cursor = cursor; result = result; failed = none }

  unfoldable pub sscan : ℕ → String → ℕ → String → ℕ → Scanned
  sscan round key cursor pattern count = scanned (s_scan round key cursor pattern count)

  -- The cursors and members printed by each round, and the error of logrus.Fatalf.
  abbrev pub Ended : Type 0
  Ended = List (ℕ × List String) × Option E

  abbrev pub printed : ℕ × List String → Option Ended → Option Ended
  printed page none = none
  printed page (some (pages, end)) = some (page ∷ pages, end)

  abbrev is_zero : ℕ → Bool
  is_zero zero = true
  is_zero (suc n) = false

  -- A round of the loop, from what the scan gave and the rounds after.
  abbrev pub scan_round : Scanned → Option Ended → Option Ended
  scan_round page rest = elim page.failed [
    | some e ↦ some ([], some e)
    | none ↦ elim (is_zero page.cursor) [
      | true ↦ some ((page.cursor, page.result) ∷ [], none)
      | false ↦ printed (page.cursor, page.result) rest
    ]
  ]

  -- `none` if the fuel is spent.
  unfoldable pub scan_loop : ℕ → ℕ → ℕ → Option Ended
  scan_loop zero round cursor = none
  scan_loop (suc fuel) round cursor =
      let page = sscan round "shello" cursor "member808" 3 in
      let rest = scan_loop fuel (round + 1) page.cursor in scan_round page rest

  abbrev answer : ℕ → ℕ → E ⊎ (List String × ℕ)
  answer round cursor = s_scan round "shello" cursor "member808" 3

  -- A scan from a round and a cursor, described by Redis's answers alone.
  pub data Scans : ℕ → ℕ → List (ℕ × List String) → Option E → Type 0 where
    fails :
        {round cursor : ℕ} (e : E) → answer round cursor ≡ inl e → Scans round cursor [] (some e)
    ends :
        {round cursor : ℕ} (result : List String)
        → answer round cursor ≡ inr (result, 0)
        → Scans round cursor ((0, result) ∷ []) none
    goes_on :
        {round cursor : ℕ} (result : List String) (next : ℕ) (pages : List (ℕ × List String))
        (end : Option E)
        → answer round cursor ≡ inr (result, suc next)
        → Scans (round + 1) (suc next) pages end
        → Scans round cursor ((suc next, result) ∷ pages) end

  -- A round of the loop, from Redis's answer.
  abbrev loop_from : ℕ → ℕ → E ⊎ (List String × ℕ) → Option Ended
  loop_from fuel round a = scan_round (scanned a) (scan_loop fuel (round + 1) (scanned a).cursor)

  scan_loop-step :
      (fuel round cursor : ℕ) (a : E ⊎ (List String × ℕ))
      → answer round cursor ≡ a
      → scan_loop (suc fuel) round cursor ≡ loop_from fuel round a
  unfolding scan_loop sscan
  scan_loop-step fuel round cursor a h = ap (loop_from fuel round) h

  Scans-scan_loop :
      (fuel round cursor : ℕ) (pages : List (ℕ × List String)) (end : Option E)
      → length pages < fuel
      → Scans round cursor pages end
      → scan_loop fuel round cursor ≡ some (pages, end)
  Scans-scan_loop zero round cursor pages end l s = absurd (omega (arith, l))
  Scans-scan_loop (suc fuel) round cursor pages end l (fails e h) =
      scan_loop-step fuel round cursor (inl e) h
  Scans-scan_loop (suc fuel) round cursor pages end l (ends result h) =
      scan_loop-step fuel round cursor (inr (result, 0)) h
  Scans-scan_loop (suc fuel) round cursor pages end l (goes_on result next rest end' h s) =
      scan_loop-step fuel round cursor (inr (result, suc next)) h
      ∙ ap (printed (suc next, result))
          (Scans-scan_loop fuel (round + 1) (suc next) rest end (omega (arith, l)) s)

  printed-some :
      (page : ℕ × List String) (rest : Option Ended) (ended : Ended)
      → printed page rest ≡ some ended
      → (before : Ended) × (rest ≡ some before) × ((page ∷ before.0, before.1) ≡ ended)
  printed-some page none ended h = absurd (cc h)
  printed-some page (some before) ended h = (before, refl, cc h)

  out_of_fuel : (round cursor : ℕ) (ended : Ended) → scan_loop 0 round cursor ≡ some ended → ⊥
  unfolding scan_loop
  out_of_fuel round cursor ended h = absurd (cc h)

  from_answer :
      (fuel round cursor : ℕ) (ended : Ended) (a : E ⊎ (List String × ℕ))
      → ((c : ℕ) (x : Ended) → scan_loop fuel (round + 1) c ≡ some x → Scans (round + 1) c x.0 x.1)
      → answer round cursor ≡ a
      → loop_from fuel round a ≡ some ended
      → Scans round cursor ended.0 ended.1
  from_answer fuel round cursor ended (inl e) later k h =
      let x : ([], some e) ≡ ended = cc h in subst (λ y. Scans round cursor y.0 y.1) x (fails e k)
  from_answer fuel round cursor ended (inr (result, zero)) later k h =
      let x : ((0, result) ∷ [], none) ≡ ended = cc h in
      subst (λ y. Scans round cursor y.0 y.1) x (ends result k)
  from_answer fuel round cursor ended (inr (result, suc m)) later k h =
      let (before, r, y) =
        printed-some (suc m, result) (scan_loop fuel (round + 1) (suc m)) ended h in
      subst (λ w. Scans round cursor w.0 w.1) y
        (goes_on result m before.0 before.1 k (later (suc m) before r))

  scan_loop-Scans :
      (fuel round cursor : ℕ) (ended : Ended)
      → scan_loop fuel round cursor ≡ some ended
      → Scans round cursor ended.0 ended.1
  scan_loop-Scans zero round cursor ended h = absurd (out_of_fuel round cursor ended h)
  scan_loop-Scans (suc fuel) round cursor ended h =
      from_answer fuel round cursor ended (answer round cursor)
        (λ c x k. scan_loop-Scans fuel (round + 1) c x k) refl
        (sym (scan_loop-step fuel round cursor (answer round cursor) refl) ∙ h)

  -- With more fuel than pages, the loop of `main` ends with some pages and some end exactly if Redis's
  -- answers make a scan with these pages and this end: it stops at the cursor 0 or at a failure, it asks
  -- with the cursor of the answer before, and it prints every page.
  pub scan_loop_iff :
      (fuel : ℕ) (pages : List (ℕ × List String)) (end : Option E)
      → length pages < fuel
      → (scan_loop fuel 0 0 ≡ some (pages, end)) ↔ Scans 0 0 pages end
  scan_loop_iff fuel pages end l =
      (λ h. scan_loop-Scans fuel 0 0 (pages, end) h, λ s. Scans-scan_loop fuel 0 0 pages end l s)
