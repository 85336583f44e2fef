-- ===== src/Complex/Field.antt =====
-- The arithmetic of complex numbers over a commutative ring, and division where the square of the magnitude
-- has an inverse.
use fbutils.Prelude.{◌≡◌, refl, sym, ◌∙◌, ap}
use fbutils.Scalar.{Scalar, IsRing, ◌⊕◌, ◌⊖◌, ◌⊗◌, ◌⊘◌}
use fbutils.Scalar.Ring.{
  ring_laws, neg-add, neg-neg, mul_comm, add_comm, add-nought, add-neg, sub-neg, mul-neg,
  mul-nought, neg-nought, mul-unit,
}
use fbutils.Complex.{
  Complex, complex, conj, sqrmag, scale, shrink, inverse, plus, minus, times, over, plus_assign,
  minus_assign, scale_assign, times_assign, shrink_assign, over_assign,
}

complex_ext {ℓ} : {T : Type ℓ} {x y x' y' : T} → x ≡ x' → y ≡ y' → complex x y ≡ complex x' y'
complex_ext p q = λ i. complex (p i) (q i)

module _ {ℓ} {T : Type ℓ} ⦃s : Scalar T⦄ ⦃ring : IsRing T⦄ where
  times_comm : (a b : Complex T) → times a b ≡ times b a
  unfolding times
  times_comm a b =
      complex_ext (rw (mul_comm a.re b.re, mul_comm a.im b.im))
        (add_comm (a.im ⊗ b.re) (a.re ⊗ b.im) ∙ rw (mul_comm a.im b.re, mul_comm a.re b.im))

  times_assoc : (a b c : Complex T) → times (times a b) c ≡ times a (times b c)
  unfolding times
  times_assoc a b c = complex_ext (simp (ring_laws)) (simp (ring_laws))

  conj-times : (a b : Complex T) → conj (times a b) ≡ times (conj a) (conj b)
  unfolding times conj
  conj-times a b = complex_ext (same_re a.re a.im b.re b.im) (same_im a.re a.im b.re b.im)
    where
      same_re : (x y u v : T) → x ⊗ u ⊖ y ⊗ v ≡ x ⊗ u ⊖ s.neg y ⊗ s.neg v
      same_re x y u v = simp ring_laws

      same_im : (x y u v : T) → s.neg (y ⊗ u ⊕ x ⊗ v) ≡ s.neg y ⊗ u ⊕ x ⊗ s.neg v
      same_im x y u v = simp ring_laws

  times-conj : (a : Complex T) → times a (conj a) ≡ complex (sqrmag a) s.nought
  unfolding times conj sqrmag
  times-conj a = complex_ext (same_re a.re a.im) (same_im a.re a.im)
    where
      same_re : (x y : T) → x ⊗ x ⊖ y ⊗ s.neg y ≡ x ⊗ x ⊕ y ⊗ y
      same_re x y = simp ring_laws

      same_im : (x y : T) → y ⊗ x ⊕ x ⊗ s.neg y ≡ s.nought
      same_im x y = rw (mul_comm y x, mul-neg x y, add-neg (x ⊗ y))

  -- Complex multiplication is commutative and associative and distributes over addition; conjugation
  -- keeps sums and products, and conjugating twice changes nothing.
  times_lem :
      (a b c : Complex T)
      → (times a b ≡ times b a)
        × (times (times a b) c ≡ times a (times b c))
        × (times a (plus b c) ≡ plus (times a b) (times a c))
        × (conj (plus a b) ≡ plus (conj a) (conj b))
        × (conj (times a b) ≡ times (conj a) (conj b))
        × (conj (conj a) ≡ a)
  unfolding times plus conj
  times_lem a b c = (
    times_comm a b,
    times_assoc a b c,
    complex_ext (simp ring_laws) (simp ring_laws),
    complex_ext refl (neg-add a.im b.im),
    conj-times a b,
    complex_ext refl (neg-neg a.im),
  )

  -- A product of four factors, paired otherwise
  times_swap : (a b c d : Complex T) → times (times a b) (times c d) ≡ times (times a c) (times b d)
  times_swap a b c d =
      times_assoc a b (times c d)
      ∙ ap (times a)
          (sym (times_assoc b c d) ∙ ap (λ x. times x d) (times_comm b c) ∙ times_assoc c b d)
      ∙ sym (times_assoc a c (times b d))

  times-real : (x y : T) → (times (complex x s.nought) (complex y s.nought)).re ≡ x ⊗ y
  unfolding times
  times-real x y = rw (sub-neg (x ⊗ y), mul-nought s.nought, neg-nought, add-nought (x ⊗ y))

  -- `a * conj a` is the real number `sqrmag a`, and `sqrmag` of a product is the product of the two.
  sqrmag_lem :
      (a b : Complex T)
      → (times a (conj a) ≡ complex (sqrmag a) s.nought)
        × (sqrmag (times a b) ≡ sqrmag a ⊗ sqrmag b)
  sqrmag_lem a b = (
    times-conj a,
    ap (λ z. z.re)
          (sym (times-conj (times a b))
            ∙ ap (times (times a b)) (conj-times a b)
            ∙ times_swap a b (conj a) (conj b)
            ∙ ap (λ z. times z (times b (conj b))) (times-conj a)
            ∙ ap (times (complex (sqrmag a) s.nought)) (times-conj b))
        ∙ times-real (sqrmag a) (sqrmag b),
  )

  over-inverse : (a b : Complex T) → over a b ≡ times a (inverse b)
  unfolding over inverse shrink scale conj sqrmag times
  over-inverse a b =
      complex_ext (same_re a.re a.im b.re b.im (s.unit ⊘ sqrmag b))
        (same_im a.re a.im b.re b.im (s.unit ⊘ sqrmag b))
    where
      same_re : (x y u v k : T) → k ⊗ (x ⊗ u ⊕ y ⊗ v) ≡ x ⊗ (k ⊗ u) ⊖ y ⊗ (k ⊗ s.neg v)
      same_re x y u v k = simp ring_laws

      same_im : (x y u v k : T) → k ⊗ (y ⊗ u ⊖ x ⊗ v) ≡ y ⊗ (k ⊗ u) ⊕ x ⊗ (k ⊗ s.neg v)
      same_im x y u v k = simp ring_laws

  times-inverse :
      (b : Complex T)
      → (s.unit ⊘ sqrmag b) ⊗ sqrmag b ≡ s.unit
      → times b (inverse b) ≡ complex s.unit s.nought
  unfolding inverse shrink scale times sqrmag
  times-inverse b inv =
      complex_ext (same_re b.re b.im (s.unit ⊘ sqrmag b) ∙ inv)
        (same_im b.re b.im (s.unit ⊘ sqrmag b))
    where
      same_re : (x y k : T) → x ⊗ (k ⊗ x) ⊖ y ⊗ (k ⊗ s.neg y) ≡ k ⊗ (x ⊗ x ⊕ y ⊗ y)
      same_re x y k = simp ring_laws

      same_im : (x y k : T) → y ⊗ (k ⊗ x) ⊕ x ⊗ (k ⊗ s.neg y) ≡ s.nought
      same_im x y k = simp ring_laws (add-neg (x ⊗ (y ⊗ k)))

  times-unit : (a : Complex T) → times a (complex s.unit s.nought) ≡ a
  unfolding times
  times-unit a =
      complex_ext (rw (mul-unit a.re, mul-nought a.im, sub-neg a.re, neg-nought, add-nought a.re))
        (rw (mul-unit a.im, mul-nought a.re, add-nought a.im))

  over-times : (a b : Complex T) → (s.unit ⊘ sqrmag b) ⊗ sqrmag b ≡ s.unit → times (over a b) b ≡ a
  over-times a b inv =
      ap (λ z. times z b) (over-inverse a b)
      ∙ times_assoc a (inverse b) b
      ∙ ap (times a) (times_comm (inverse b) b ∙ times-inverse b inv)
      ∙ times-unit a

  -- Where `1 / sqrmag b` is the inverse of `sqrmag b`: `b.inverse()` is the inverse of `b`, `a / b` is
  -- `a * b.inverse()`, which times `b` is `a` again, and `(a * b) / b` is `a`.
  over_lem :
      (a b : Complex T)
      → (s.unit ⊘ sqrmag b) ⊗ sqrmag b ≡ s.unit
      → (times b (inverse b) ≡ complex s.unit s.nought)
        × (over a b ≡ times a (inverse b))
        × (times (over a b) b ≡ a)
        × (over (times a b) b ≡ a)
  over_lem a b inv = (
    times-inverse b inv,
    over-inverse a b,
    over-times a b inv,
    over-inverse (times a b) b
        ∙ times_assoc a b (inverse b)
        ∙ ap (times a) (times-inverse b inv)
        ∙ times-unit a,
  )

  -- Over a commutative ring, the exact arithmetic that floating point rounds, and where `1 / sqrmag b` times
  -- `sqrmag b` is 1: `a /= b` leaves the quotient of `a / b` by `b`, the value divided by `b` twice, which
  -- only times `b` is `a / b`.
  pub over_assign_lem :
      (a b : Complex T)
      → (s.unit ⊘ sqrmag b) ⊗ sqrmag b ≡ s.unit
      → (over_assign a b ≡ over (over a b) b) × (times (over_assign a b) b ≡ over a b)
  unfolding over_assign
  over_assign_lem a b inv =
      let twice : over_assign a b ≡ over (over a b) b =
        ap (λ z. times z (inverse b)) (sym (over-inverse a b)) ∙ sym (over-inverse (over a b) b) in
      (twice, ap (λ z. times z b) twice ∙ over-times (over a b) b inv)

  -- The operators that assign leave what the operators that return a value return, the one that divides
  -- by a scalar if `float` loses nothing.
  assign_lem :
      (a b : Complex T) (x : T)
      → (plus_assign a b ≡ plus a b)
        × (minus_assign a b ≡ minus a b)
        × (times_assign a b ≡ times a b)
        × (scale_assign a x ≡ scale x a)
        × (shrink_assign (λ y. y) a x ≡ shrink a x)
  unfolding plus_assign minus_assign times_assign scale_assign shrink_assign plus minus scale shrink
  assign_lem a b x = (
    refl,
    refl,
    refl,
    complex_ext (mul_comm a.re x) (mul_comm a.im x),
    complex_ext (mul_comm a.re (s.unit ⊘ x)) (mul_comm a.im (s.unit ⊘ x)),
  )
