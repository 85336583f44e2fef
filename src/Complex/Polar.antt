-- ===== src/Complex/Polar.antt =====
-- What calls the floating-point functions: magnitude and argument, `polar` and `hypot`.
use fbutils.Prelude.{◌≡◌, sym, ◌∙◌, ap, Option, some, ◌>>=◌, if◌then◌else◌}
use fbutils.Scalar.{Scalar, IsRing, ◌⊕◌, ◌⊗◌, ◌⊘◌}
use fbutils.Scalar.Ring.{ring_laws, add_comm, mul-neg}
use fbutils.Scalar.Trig.{Trig, IsCircular, IsPolar}
use fbutils.MathUtils.Ranges.{domain_angle}
use fbutils.MathUtils.Polynomials.{fast_cos8, fast_sin9}
use fbutils.Complex.{Complex, complex, conj, sqrmag, scale, plus}

module _ {ℓ} {T : Type ℓ} ⦃s : Scalar T⦄ ⦃t : Trig T⦄ where
  unfoldable pub mag : Complex T → T
  mag a = t.hypot a.re a.im

  unfoldable pub arg : Complex T → T
  arg a = t.atan2 a.im a.re

  unfoldable pub polar : T → T → Complex T
  polar mag arg = complex (mag ⊗ t.cos arg) (mag ⊗ t.sin arg)

  -- `fastPolar`, with `std::remainder`, π, and the coefficients of the polynomials for cosine and sine
  unfoldable pub fast_polar :
      (T → T → T) → T → T × T × T × T → T × T × T × T × T → T → T → Option (Complex T)
  unfolding domain_angle fast_cos8 fast_sin9
  fast_polar remainder pi (b, c, d, e) (f, g, h, k, l) mag arg = do
    domain_arg ← domain_angle remainder pi arg
    some (complex (mag ⊗ fast_cos8 b c d e domain_arg) (mag ⊗ fast_sin9 f g h k l domain_arg))

  unfoldable pub hypot : Complex T → Complex T → Complex T
  unfolding mag scale plus
  hypot first second =
      let sqr_sum = plus (scale (mag first) first) (scale (mag second) second) in
      let sqr_sum_mag = mag sqr_sum in
      if s.same sqr_sum_mag s.nought
      then complex s.nought s.nought
      else scale (s.unit ⊘ t.sqrt sqr_sum_mag) sqr_sum

module _ {ℓ} {T : Type ℓ} ⦃s : Scalar T⦄ ⦃t : Trig T⦄ ⦃ring : IsRing T⦄ where
  plus_comm : (a b : Complex T) → plus a b ≡ plus b a
  unfolding plus
  plus_comm a b = λ i. complex (add_comm a.re b.re i) (add_comm a.im b.im i)

  -- `hypot` does not depend on the order of the numbers.
  hypot_comm : (a b : Complex T) → hypot a b ≡ hypot b a
  unfolding hypot
  hypot_comm a b =
      ap
        (λ c.
          if s.same (mag c) s.nought
          then complex s.nought s.nought
          else scale (s.unit ⊘ t.sqrt (mag c)) c)
        (plus_comm (scale (mag a) a) (scale (mag b) b))

  square_polar : (m c d : T) → m ⊗ c ⊗ (m ⊗ c) ⊕ m ⊗ d ⊗ (m ⊗ d) ≡ m ⊗ m ⊗ (c ⊗ c ⊕ d ⊗ d)
  square_polar m c d = simp ring_laws

  -- Where `hypot` and `atan2` give the polar coordinates of a number, `polar` of its magnitude and argument is
  -- that number; with the exact sine and cosine, the square magnitude of `polar` is the square of the
  -- magnitude given, and its conjugate is `polar` of the opposite argument.
  polar_lem :
      IsCircular T
      → (a : Complex T) → IsPolar a.re a.im
      → (m x : T)
      → (polar (mag a) (arg a) ≡ a)
        × (sqrmag (polar m x) ≡ m ⊗ m)
        × (conj (polar m x) ≡ polar m (s.neg x))
  unfolding polar mag arg sqrmag conj
  polar_lem trig a (re, im) m x = (
    λ i. complex (re i) (im i),
    square_polar m (t.cos x) (t.sin x) ∙ rw (trig.circle x) (ring.mul-unit (m ⊗ m)),
    λ i.
        complex (m ⊗ sym (trig.cos-neg x) i)
          ((sym (mul-neg m (t.sin x)) ∙ ap (λ y. m ⊗ y) (sym (trig.sin-neg x))) i),
  )
