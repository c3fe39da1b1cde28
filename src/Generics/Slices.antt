-- ===== src/Generics/Slices.antt =====
-- Filter, Map1 and Reduce of cmd/fanxing/fanxing.go, and pointers to copies (Ptr, PtrVal).
use kratos_demo.Prelude.{
  ℕ, ◌≡◌, refl, Bool-cases, inl, inr, ap, ◌∙◌, sym, Bool, Option, List, [], ◌∷◌, ◌++◌, map, foldr,
  length, get_elem?, if◌then◌else◌, Outcome, ok, panic, ◌>>=◌,
}
use mathlib.Core.List.{append-nil, append_assoc}
use kratos_demo.Prelude.Selection.{select}

module _ {T : Type 0} where
  -- The loop appends to `result`.
  filter_loop : List T → (T → Bool) → List T → List T
  filter_loop [] f result = result
  filter_loop (v ∷ src) f result =
      let result' = if f v then result ++ v ∷ [] else result in filter_loop src f result'

  unfoldable pub filter : List T → (T → Bool) → List T
  unfolding filter_loop
  filter src f = filter_loop src f []

  map1_loop : {S : Type 0} → List S → (S → T) → List T → List T
  map1_loop [] f result = result
  map1_loop (v ∷ src) f result = map1_loop src f (result ++ f v ∷ [])

  -- The second parameter of `Map1` is not used.
  unfoldable pub map1 : {D S : Type 0} → List S → List D → (S → T) → List T
  unfolding map1_loop
  map1 src src_d f = map1_loop src f []

  -- `src[0]` and `src[1:]` panic on an empty slice.
  unfoldable pub reduce {κ} : {E : Type κ} → List T → (T → T → T) → Outcome E T
  reduce [] f = panic
  reduce (v ∷ []) f = ok v
  reduce (v ∷ w ∷ src) f = reduce (w ∷ src) f >>= λ rest. ok (f v rest)

  -- `Ptr` gives a new pointer to a copy; the store holds what the pointers point to.
  abbrev pub ptr : List T → T → List T × ℕ
  ptr store a = (store ++ a ∷ [], length store)

  abbrev pub ptr_val : List T → ℕ → Option T
  ptr_val store p = get_elem? store p

  filter_loop-select :
      (src : List T) (f : T → Bool) (result : List T)
      → filter_loop src f result ≡ result ++ select f src
  unfolding filter_loop select
  filter_loop-select [] f result = sym (append-nil result)
  filter_loop-select (v ∷ src) f result = elim (Bool-cases (f v)) [
    | inl e ↦
        rw (filter_loop, select, e)
          (filter_loop-select src f (result ++ v ∷ [])
            ∙ append_assoc result (v ∷ []) (select f src))
    | inr e ↦ rw (filter_loop, select, e) (filter_loop-select src f result)
  ]

  map1_loop-map :
      {S : Type 0} (src : List S) (f : S → T) (result : List T)
      → map1_loop src f result ≡ result ++ map f src
  unfolding map1_loop
  map1_loop-map [] f result = sym (append-nil result)
  map1_loop-map (v ∷ src) f result =
      map1_loop-map src f (result ++ f v ∷ []) ∙ append_assoc result (f v ∷ []) (map f src)

  reduce-foldr {κ} :
      {E : Type κ} (src : List T) (last : T) (f : T → T → T)
      → reduce {E = E} (src ++ last ∷ []) f ≡ ok (foldr f last src)
  unfolding reduce
  reduce-foldr [] last f = refl
  reduce-foldr (v ∷ []) last f = refl
  reduce-foldr (v ∷ w ∷ src) last f =
      ap (λ r. r >>= λ rest. ok (f v rest)) (reduce-foldr (w ∷ src) last f)

  -- Reduce folds from the right onto the last entry, and panics on an empty slice.
  pub reduce_correct {κ} :
      {E : Type κ} (f : T → T → T)
      → (reduce {E = E} [] f ≡ panic)
        × ((src : List T) (last : T) → reduce {E = E} (src ++ last ∷ []) f ≡ ok (foldr f last src))
  unfolding reduce
  reduce_correct f = (refl, λ src last. reduce-foldr src last f)

  -- Filter keeps, in order, the entries that pass its test; Map1 applies its function to each entry.
  pub filter-map1 :
      {S D : Type 0} (src : List S) (src_d : List D) (f : S → T) (keep : T → Bool)
      → filter (map1 src src_d f) keep ≡ select keep (map f src)
  unfolding filter map1
  filter-map1 src src_d f keep =
      filter_loop-select _ keep [] ∙ ap (select keep) (map1_loop-map src f [])
