-- ===== src/Scalar/Order.antt =====
-- What follows from the laws of order: the strict order, and its cases.
use fbutils.Prelude.{◌≡◌, sym, ◌∙◌, ap, true, false, not, Bool-cases, ◌⊎◌, inl, inr, arith}
use fbutils.Scalar.{Scalar, IsOrdered}

module _ {ℓ} {T : Type ℓ} ⦃s : Scalar T⦄ (ordered : IsOrdered T) where
  pub lt_irrefl : (a : T) → s.lt a a ≡ false
  lt_irrefl a = ordered.lt-not-le a a ∙ ap not (ordered.le_refl a)

  pub le_of_lt : (a b : T) → s.lt a b ≡ true → (s.le a b ≡ true) × (s.le b a ≡ false)
  le_of_lt a b p =
      let apart : s.le b a ≡ false = ground (arith, ordered.lt-not-le a b) in
      elim (ordered.le_total a b) [ inl q ↦ (q, apart) | inr q ↦ absurd (ground arith) ]

  pub lt_of_le : (a b : T) → s.le b a ≡ false → s.lt a b ≡ true
  lt_of_le a b q = ordered.lt-not-le a b ∙ ap not q

  pub lt_trans : (a b c : T) → s.lt a b ≡ true → s.lt b c ≡ true → s.lt a c ≡ true
  lt_trans a b c p q = elim (Bool-cases (s.le c a)) [
    | inl r ↦
        absurd (ground (arith, ordered.le_trans c a b r (le_of_lt a b p).0, (le_of_lt b c q).1))
    | inr r ↦ lt_of_le a c r
  ]

  pub lt_total : (a b : T) → (s.lt a b ≡ true) ⊎ ((s.lt b a ≡ true) ⊎ (a ≡ b))
  lt_total a b = elim (Bool-cases (s.le b a)) [
    | inr r ↦ inl (lt_of_le a b r)
    | inl r ↦ elim (Bool-cases (s.le a b)) [
      | inr q ↦ inr (inl (lt_of_le b a q))
      | inl q ↦ inr (inr (ordered.le_antisymm a b q r))
    ]
  ]

  pub same_of : (a b : T) → a ≡ b → s.same a b ≡ true
  same_of a b e = ap (λ z. s.same a z) (sym e) ∙ ordered.same_refl a

  pub le_of_not_lt : (a b : T) → s.lt a b ≡ false → s.le b a ≡ true
  le_of_not_lt a b h = ground (arith, ordered.lt-not-le a b)
