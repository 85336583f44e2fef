-- ===== src/Vector3/Order.antt =====
-- The order of vectors, `operator<`.
use fbutils.Prelude.{
  ◌≡◌, refl, sym, ◌∙◌, ap, Bool, true, false, Bool-cases, ◌⊎◌, inl, inr, if◌then◌else◌, arith,
}
use fbutils.Scalar.{Scalar, IsOrdered}
use fbutils.Scalar.Order
use fbutils.Scalar.Trig.{Trig}
use fbutils.Vector3.{Vector3, less}
use fbutils.Vector3.Space.{vec3_ext}

module _ {ℓ} {T : Type ℓ} ⦃s : Scalar T⦄ ⦃t : Trig T⦄ (ordered : IsOrdered T) where
  -- One component of the order, with what the rest says
  abbrev lex : T → T → Bool → Bool
  lex a b rest = if s.lt a b then true else (if s.same a b then rest else false)

  -- What `lex` being true says, and the two ways in which it is
  lex_cases :
      (a b : T) (rest : Bool) → lex a b rest ≡ true → (s.lt a b ≡ true) ⊎ ((a ≡ b) × (rest ≡ true))
  lex_cases a b rest h = elim (Bool-cases (s.lt a b)) [
    | inl p ↦ inl p
    | inr p ↦ elim (Bool-cases (s.same a b)) [
      | inl q ↦ inr (ordered.same-le a b q, ground arith)
      | inr q ↦ absurd (ground arith)
    ]
  ]

  lex_lt : (a b : T) (rest : Bool) → s.lt a b ≡ true → lex a b rest ≡ true
  lex_lt a b rest p = ground arith

  lex_same : (a b : T) (rest : Bool) → a ≡ b → rest ≡ true → lex a b rest ≡ true
  lex_same a b rest e r = ground (arith, Order.same_of ordered a b e)

  lex_trans :
      (a b c : T) (r r' r'' : Bool)
      → (r ≡ true → r' ≡ true → r'' ≡ true)
      → lex a b r ≡ true
      → lex b c r' ≡ true
      → lex a c r'' ≡ true
  lex_trans a b c r r' r'' next h k = elim (lex_cases a b r h) [
    | inl p ↦ elim (lex_cases b c r' k) [
      | inl q ↦ lex_lt a c r'' (Order.lt_trans ordered a b c p q)
      | inr (e, _) ↦ lex_lt a c r'' (ap (s.lt a) (sym e) ∙ p)
    ]
    | inr (e, x) ↦ elim (lex_cases b c r' k) [
      | inl q ↦ lex_lt a c r'' (ap (λ z. s.lt z c) e ∙ q)
      | inr (e', y) ↦ lex_same a c r'' (e ∙ e') (next x y)
    ]
  ]

  lex_irrefl : (a : T) (rest : Bool) → lex a a rest ≡ rest
  lex_irrefl a rest = ground (arith, Order.lt_irrefl ordered a, ordered.same_refl a)

  lex_total :
      {P : Type ℓ} (a b : T) (r r' : Bool)
      → (a ≡ b → (r ≡ true) ⊎ ((r' ≡ true) ⊎ P))
      → (lex a b r ≡ true) ⊎ ((lex b a r' ≡ true) ⊎ P)
  lex_total a b r r' next = elim (Order.lt_total ordered a b) [
    | inl p ↦ inl (lex_lt a b r p)
    | inr (inl p) ↦ inr (inl (lex_lt b a r' p))
    | inr (inr e) ↦ elim (next e) [
      | inl p ↦ inl (lex_same a b r e p)
      | inr (inl p) ↦ inr (inl (lex_same b a r' (sym e) p))
      | inr (inr p) ↦ inr (inr p)
    ]
  ]

  last : (a b : T) → Bool
  last a b = if s.lt a b then true else false

  less-lex : (a b : Vector3 T) → less a b ≡ lex a.x b.x (lex a.y b.y (last a.z b.z))
  unfolding less last
  less-lex a b = refl

  last-lt : (a b : T) → last a b ≡ s.lt a b
  unfolding last
  last-lt a b = ground arith

  -- `operator<` is a strict total order wherever the order of the components is one and `==` is equality:
  -- no vector is below itself, the order is transitive, and of two vectors one is below the other or they
  -- are the same.
  less_lem :
      (a b c : Vector3 T)
      → (less a a ≡ false)
        × (less a b ≡ true → less b c ≡ true → less a c ≡ true)
        × ((less a b ≡ true) ⊎ ((less b a ≡ true) ⊎ (a ≡ b)))
  unfolding less last
  less_lem a b c = (
    lex_irrefl a.x (lex a.y a.y (last a.z a.z))
        ∙ lex_irrefl a.y (last a.z a.z)
        ∙ last-lt a.z a.z
        ∙ Order.lt_irrefl ordered a.z,
    lex_trans a.x b.x c.x (lex a.y b.y (last a.z b.z)) (lex b.y c.y (last b.z c.z))
        (lex a.y c.y (last a.z c.z))
        (lex_trans a.y b.y c.y (last a.z b.z) (last b.z c.z) (last a.z c.z) (λ p q.
          last-lt a.z c.z
          ∙ Order.lt_trans ordered a.z b.z c.z (sym (last-lt a.z b.z) ∙ p)
              (sym (last-lt b.z c.z) ∙ q))),
    lex_total a.x b.x (lex a.y b.y (last a.z b.z)) (lex b.y a.y (last b.z a.z)) (λ e.
        lex_total a.y b.y (last a.z b.z) (last b.z a.z) (λ e'.
          elim (Order.lt_total ordered a.z b.z) [
            | inl p ↦ inl (last-lt a.z b.z ∙ p)
            | inr (inl p) ↦ inr (inl (last-lt b.z a.z ∙ p))
            | inr (inr e'') ↦ inr (inr (vec3_ext e e' e''))
          ])),
  )
