-- ===== src/Ws/Broadcast/Deliver.antt =====
-- One round of Broadcast over the clients of the map.
use kratos_demo.Prelude.{
  ℕ, ◌≡◌, refl, sym, ap, ◌∙◌, subst, Bool, true, false, ◌⊎◌, inl, inr, Bool-cases, List, [], ◌∷◌,
  In, IsDistinct, String, if◌then◌else◌, ◌==◌, nat_comparable, nat_beq_iff, eq_self, arith,
}
use kratos_demo.Ws.Broadcast.{update, deliver}

IsDistinct-if :
    (b : Bool) (d : ℕ) (cs : List ℕ)
    → (In d cs → ⊥)
    → IsDistinct cs
    → IsDistinct (if b then cs else d ∷ cs)
IsDistinct-if true d cs n h = h
IsDistinct-if false d cs n h = (n, h)

In-kept :
    (b : Bool) (c d : ℕ) (cs : List ℕ)
    → In c (if b then cs else d ∷ cs)
    → ((b ≡ false) × (c ≡ d)) ⊎ In c cs
In-kept true c d cs i = inr i
In-kept false c d cs (inl p) = inl (refl, p)
In-kept false c d cs (inr i) = inr i

module _ (fails : ℕ → Bool) (msg : String) where
  -- What the clients have been sent after the loop's round for one of them.
  abbrev sent : ℕ → (ℕ → List String) → ℕ → List String
  sent d got = if fails d then got else update d (msg ∷ got d) got

  sent_other : (d c : ℕ) (got : ℕ → List String) → (c ≡ d → ⊥) → sent d got c ≡ got c
  sent_other d c got n = ground (arith, n)

  sent_self :
      (d : ℕ) (got : ℕ → List String) → sent d got d ≡ (if fails d then got d else msg ∷ got d)
  sent_self d got = ground (arith, eq_self d)

  pub In-deliver :
      (cs : List ℕ) (got : ℕ → List String) (c : ℕ)
      → In c (deliver fails msg cs got).0
      → In c cs × (fails c ≡ false)
  unfolding deliver
  In-deliver [] got c h = absurd h
  In-deliver (d ∷ cs) got c h =
      elim (In-kept (fails d) c d (deliver fails msg cs (sent d got)).0 h) [
        | inl (e, p) ↦ (inl p, subst (λ x. fails x ≡ false) (sym p) e)
        | inr i ↦ let (j, f) = In-deliver cs (sent d got) c i in (inr j, f)
      ]

  pub deliver-IsDistinct :
      (cs : List ℕ) (got : ℕ → List String)
      → IsDistinct cs
      → IsDistinct (deliver fails msg cs got).0
  unfolding deliver
  deliver-IsDistinct [] got h = tt
  deliver-IsDistinct (d ∷ cs) got (n, h) =
      let rest = deliver-IsDistinct cs (sent d got) h in
      let absent =
        λ (i : In d (deliver fails msg cs (sent d got)).0). n (In-deliver cs (sent d got) d i).0 in
      IsDistinct-if (fails d) d (deliver fails msg cs (sent d got)).0 absent rest

  -- A client that is not in the list gets nothing.
  pub deliver-absent :
      (cs : List ℕ) (got : ℕ → List String) (c : ℕ)
      → (In c cs → ⊥)
      → (deliver fails msg cs got).1 c ≡ got c
  unfolding deliver
  deliver-absent [] got c n = refl
  deliver-absent (d ∷ cs) got c n =
      deliver-absent cs (sent d got) c (λ i. n (inr i)) ∙ sent_other d c got (λ p. n (inl p))

  pub deliver-received :
      (cs : List ℕ) (got : ℕ → List String) (c : ℕ)
      → IsDistinct cs
      → In c cs
      → (deliver fails msg cs got).1 c ≡ (if fails c then got c else msg ∷ got c)
  unfolding deliver
  deliver-received [] got c h i = absurd i
  deliver-received (d ∷ cs) got c (n, h) (inl e) =
      deliver-absent cs (sent d got) c (λ i. n (subst (λ x. In x cs) e i))
      ∙ subst (λ x. sent d got x ≡ (if fails x then got x else msg ∷ got x)) (sym e)
          (sent_self d got)
  deliver-received (d ∷ cs) got c (n, h) (inr i) =
      let other = sent_other d c got (λ p. n (subst (λ x. In x cs) p i)) in
      deliver-received cs (sent d got) c h i ∙ ap (λ r. if fails c then r else msg ∷ r) other

  -- Whatever happens, a client is sent the message or nothing, and only if it is in the list.
  pub deliver-either :
      (cs : List ℕ) (got : ℕ → List String) (c : ℕ)
      → IsDistinct cs
      → ((deliver fails msg cs got).1 c ≡ got c)
        ⊎ (In c cs × ((deliver fails msg cs got).1 c ≡ msg ∷ got c))
  unfolding deliver
  deliver-either [] got c h = inl refl
  deliver-either (d ∷ cs) got c (n, h) = elim (Bool-cases (c == d)) [
    | inl e ↦
        let p = (nat_beq_iff c d).0 e in
        let same = deliver-received (d ∷ cs) got c (n, h) (inl p) in
        elim (Bool-cases (fails c)) [
          | inl f ↦ inl (same ∙ ap (λ b. if b then got c else msg ∷ got c) f)
          | inr f ↦ inr (inl p, same ∙ ap (λ b. if b then got c else msg ∷ got c) f)
        ]
    | inr e ↦
        let other = sent_other d c got (λ p. ground (arith, e, (nat_beq_iff c d).1 p)) in
        elim (deliver-either cs (sent d got) c h) [
          | inl q ↦ inl (q ∙ other)
          | inr (i, q) ↦ inr (inr i, q ∙ ap (λ l. msg ∷ l) other)
        ]
  ]
