-- ===== src/MathUtils/Polynomials.antt =====
-- `square`, `cube`, `minOverMax` and the polynomials that stand for sine, cosine and arcsine. The
-- coefficients are parameters, each without the sign that the code writes in front of it.
use fbutils.Prelude.{
  ℕ, zero, suc, ◌≡◌, refl, ap, ◌∙◌, true, false, not, Option, none, some, ◌>>=◌, if◌then◌else◌, inl,
  inr,
}
use fbutils.Scalar.{Scalar, IsOrdered, IsRing, ◌⊕◌, ◌⊖◌, ◌⊗◌, ◌⊘◌}
use fbutils.Scalar.Order
use fbutils.Scalar.Ring.{ring_laws}

module _ {ℓ} {T : Type ℓ} ⦃s : Scalar T⦄ where
  unfoldable pub square : T → T
  square x = x ⊗ x

  unfoldable pub cube : T → T
  cube x = x ⊗ x ⊗ x

  unfoldable pub min_over_max : T → T → T
  min_over_max a b = if s.lt a b then a ⊘ b else b ⊘ a

  unfoldable pub fast_sin7 : T → T → T → T → T → T
  fast_sin7 a b c d x = let x2 = x ⊗ x in x ⊗ (a ⊕ x2 ⊗ (s.neg b ⊕ x2 ⊗ (c ⊖ d ⊗ x2)))

  unfoldable pub fast_sin9 : T → T → T → T → T → T → T
  fast_sin9 a b c d e x =
      let x2 = x ⊗ x in x ⊗ (a ⊕ x2 ⊗ (s.neg b ⊕ x2 ⊗ (c ⊕ x2 ⊗ (s.neg d ⊕ e ⊗ x2))))

  unfoldable pub fast_cos6 : T → T → T → T → T → T
  fast_cos6 a b c d x = let x2 = x ⊗ x in a ⊕ x2 ⊗ (s.neg b ⊕ x2 ⊗ (c ⊖ d ⊗ x2))

  unfoldable pub fast_cos8 : T → T → T → T → T → T
  fast_cos8 b c d e x =
      let x2 = x ⊗ x in s.unit ⊕ x2 ⊗ (s.neg b ⊕ x2 ⊗ (c ⊕ x2 ⊗ (s.neg d ⊕ e ⊗ x2)))

  -- The quotient of `fast_asin4_3` for `x` of 0 at least
  unfoldable pub asin_quotient : T → T → T → T → T → T → T → T → T
  asin_quotient a b c d e f g x =
      x ⊗ (a ⊕ x ⊗ (b ⊕ x ⊗ (s.neg c ⊕ d ⊗ x))) ⊘ (s.unit ⊕ x ⊗ (e ⊕ x ⊗ (s.neg f ⊕ g ⊗ x)))

  -- `fast_asin4_3`, where `quotient` is that function of its coefficients, in at most `fuel` calls of itself
  unfoldable pub fast_asin4_3 : (T → T) → ℕ → T → Option T
  fast_asin4_3 quotient zero x = if s.le s.nought x then some (quotient x) else none
  fast_asin4_3 quotient (suc fuel) x =
      let deeper = fast_asin4_3 quotient fuel (s.neg x) in
      if s.le s.nought x then some (quotient x) else do v ← deeper; some (s.neg v)

-- A function that takes the opposite argument to the opposite value, or to the same
abbrev pub IsOdd {ℓ} : {T : Type ℓ} → (T → T) → (T → T) → Type ℓ
IsOdd {T} neg f = (x : T) → f (neg x) ≡ neg (f x)

abbrev pub IsEven {ℓ} : {T : Type ℓ} → (T → T) → (T → T) → Type ℓ
IsEven {T} neg f = (x : T) → f (neg x) ≡ f x

module _ {ℓ} {T : Type ℓ} ⦃s : Scalar T⦄ ⦃ring : IsRing T⦄ where
  square-IsEven : IsEven s.neg square
  unfolding square
  square-IsEven x = simp ring_laws

  cube-IsOdd : IsOdd s.neg cube
  unfolding cube
  cube-IsOdd x = simp ring_laws

  odd_times : (x p : T) → s.neg x ⊗ p ≡ s.neg (x ⊗ p)
  odd_times x p = simp ring_laws

  -- The approximations of sine are odd functions and those of cosine even ones, as are the cube and the
  -- square, for all coefficients.
  fast_sin9-IsOdd :
      (a b c d e : T)
      → IsOdd s.neg (fast_sin7 a b c d)
        × IsOdd s.neg (fast_sin9 a b c d e)
        × IsEven s.neg (fast_cos6 a b c d)
        × IsEven s.neg (fast_cos8 b c d e)
        × IsOdd s.neg cube
        × IsEven s.neg square
  unfolding fast_sin7 fast_sin9 fast_cos6 fast_cos8 square
  fast_sin9-IsOdd a b c d e = (
    λ x.
        ap (λ y. s.neg x ⊗ (a ⊕ y ⊗ (s.neg b ⊕ y ⊗ (c ⊖ d ⊗ y)))) (square-IsEven x) ∙ odd_times x _,
    λ x.
        ap (λ y. s.neg x ⊗ (a ⊕ y ⊗ (s.neg b ⊕ y ⊗ (c ⊕ y ⊗ (s.neg d ⊕ e ⊗ y))))) (square-IsEven x)
        ∙ odd_times x _,
    λ x. ap (λ y. a ⊕ y ⊗ (s.neg b ⊕ y ⊗ (c ⊖ d ⊗ y))) (square-IsEven x),
    λ x. ap (λ y. s.unit ⊕ y ⊗ (s.neg b ⊕ y ⊗ (c ⊕ y ⊗ (s.neg d ⊕ e ⊗ y)))) (square-IsEven x),
    cube-IsOdd,
    square-IsEven,
  )

module _ {ℓ} {T : Type ℓ} ⦃s : Scalar T⦄ where
  -- Where neither `x` nor its opposite is 0 at least, as for a NaN, and `x` is the opposite of its opposite, no
  -- number of calls of itself is enough for `fast_asin4_3`.
  asin_stuck :
      (quotient : T → T) (x : T)
      → s.neg (s.neg x) ≡ x
      → s.le s.nought x ≡ false
      → s.le s.nought (s.neg x) ≡ false
      → (fuel : ℕ) → fast_asin4_3 quotient fuel x ≡ none
  unfolding fast_asin4_3
  asin_stuck quotient x back p q zero = rw p refl
  asin_stuck quotient x back p q (suc fuel) =
      rw (p, asin_stuck quotient (s.neg x) (ap s.neg back) q (rw back p) fuel) refl

  backwards : IsOrdered T → (a b : T) → s.lt a b ≡ true → s.lt b a ≡ false
  backwards ordered a b p = ordered.lt-not-le b a ∙ ap not (Order.le_of_lt ordered a b p).0

  -- The quotient of the smaller by the greater value does not depend on their order.
  min_over_max_comm : IsOrdered T → (a b : T) → min_over_max a b ≡ min_over_max b a
  unfolding min_over_max
  min_over_max_comm ordered a b = elim (Order.lt_total ordered a b) [
    | inl p ↦ rw p (rw (backwards ordered a b p) refl)
    | inr (inl p) ↦ rw p (rw (backwards ordered b a p) refl)
    | inr (inr e) ↦ rw e refl
  ]
