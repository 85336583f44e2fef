-- ===== src/Complex.antt =====
-- include/fbu/complex.hpp: complex numbers over the scalar type `T`, and the loops over arrays of them.
--
-- An array is a list, and `none` an access outside of it. An operator that assigns to its object
-- returns the new value of the object.
pub mod Field
pub mod Arrays
pub mod Polar
mod Tests
use fbutils.Prelude.{
  ℕ, ◌+◌, ◌-◌, ◌/◌, suc, zero, Bool, not, ◌&&◌, ◌||◌, ◌==◌, Option, none, some, List, [], ◌∷◌,
  get_elem?, set, length, if◌then◌else◌, ◌>>=◌,
}
use fbutils.Scalar.{Scalar, ◌⊕◌, ◌⊖◌, ◌⊗◌, ◌⊘◌}

pub record Complex {ℓ} (T : Type ℓ) : Type ℓ where
  pub re : T
  pub im : T

abbrev pub complex {ℓ} : {T : Type ℓ} → T → T → Complex T
complex x y = record { re = x; im = y }

module _ {ℓ} {T : Type ℓ} ⦃s : Scalar T⦄ where
  -- `operator=` of a scalar, as a `T`
  unfoldable pub assign_real : T → Complex T
  assign_real r = complex r s.nought

  unfoldable pub conj : Complex T → Complex T
  conj a = complex a.re (s.neg a.im)

  unfoldable pub sqrmag : Complex T → T
  sqrmag a = a.re ⊗ a.re ⊕ a.im ⊗ a.im

  -- `s * a` and `a * s`
  unfoldable pub scale : T → Complex T → Complex T
  scale x a = complex (x ⊗ a.re) (x ⊗ a.im)

  -- `a / s` for a scalar `s`
  unfoldable pub shrink : Complex T → T → Complex T
  unfolding scale
  shrink a x = scale (s.unit ⊘ x) a

  unfoldable pub inverse : Complex T → Complex T
  unfolding shrink conj sqrmag
  inverse a = shrink (conj a) (sqrmag a)

  unfoldable pub dot : Complex T → Complex T → T
  dot a b = a.re ⊗ b.re ⊕ a.im ⊗ b.im

  -- `operator+`, `operator-`, `operator*` and `operator/` of two complex numbers
  unfoldable pub plus : Complex T → Complex T → Complex T
  plus a b = complex (a.re ⊕ b.re) (a.im ⊕ b.im)

  unfoldable pub minus : Complex T → Complex T → Complex T
  minus a b = complex (a.re ⊖ b.re) (a.im ⊖ b.im)

  unfoldable pub times : Complex T → Complex T → Complex T
  times a b = complex (a.re ⊗ b.re ⊖ a.im ⊗ b.im) (a.im ⊗ b.re ⊕ a.re ⊗ b.im)

  unfoldable pub over : Complex T → Complex T → Complex T
  unfolding scale sqrmag
  over a b =
      scale (s.unit ⊘ sqrmag b) (complex (a.re ⊗ b.re ⊕ a.im ⊗ b.im) (a.im ⊗ b.re ⊖ a.re ⊗ b.im))

  -- `operator==` and `operator!=`
  unfoldable pub equal : Complex T → Complex T → Bool
  equal a b = s.same a.re b.re && s.same a.im b.im

  unfoldable pub differ : Complex T → Complex T → Bool
  differ a b = not (s.same a.re b.re) || not (s.same a.im b.im)

  -- `operator+=`, `operator-=`, and `operator*=` with a scalar and with a complex number
  unfoldable pub plus_assign : Complex T → Complex T → Complex T
  plus_assign self a = complex (self.re ⊕ a.re) (self.im ⊕ a.im)

  unfoldable pub minus_assign : Complex T → Complex T → Complex T
  minus_assign self a = complex (self.re ⊖ a.re) (self.im ⊖ a.im)

  unfoldable pub scale_assign : Complex T → T → Complex T
  scale_assign self x = complex (self.re ⊗ x) (self.im ⊗ x)

  unfoldable pub times_assign : Complex T → Complex T → Complex T
  unfolding times
  times_assign self a = times self a

  -- `operator/=` with a scalar: the inverse goes through a `float`, which is `narrow`.
  unfoldable pub shrink_assign : (T → T) → Complex T → T → Complex T
  shrink_assign narrow self x =
      let inv = narrow (s.unit ⊘ x) in complex (self.re ⊗ inv) (self.im ⊗ inv)

  -- `operator/=` with a complex number
  unfoldable pub over_assign : Complex T → Complex T → Complex T
  unfolding times inverse
  over_assign self a = let inv = inverse a in let self1 = times self inv in times self1 inv

  -- One turn of `vectSymConj`
  unfoldable pub sym_conj_step : ℕ → ℕ → List (Complex T) → Option (List (Complex T))
  unfolding conj
  sym_conj_step size u v = do
    a ← get_elem? v u
    _ ← get_elem? v (size - u)
    some (set v (size - u) (conj a))

  -- The loop of `vectSymConj` from `u` on; the first number bounds its turns.
  unfoldable pub sym_conj_loop : ℕ → ℕ → ℕ → List (Complex T) → Option (List (Complex T))
  unfolding sym_conj_step
  sym_conj_loop zero size u v = none
  sym_conj_loop (suc fuel) size u v =
      if u == size / 2
      then some v
      else do v1 ← sym_conj_step size u v; sym_conj_loop fuel size (u + 1) v1

  unfoldable pub vect_sym_conj : List (Complex T) → ℕ → Option (List (Complex T))
  unfolding sym_conj_loop
  vect_sym_conj v size = sym_conj_loop (size + 1) size 1 v

  -- The loop of `vectSubtract_I` from `u` on, with the turns left
  unfoldable pub subtract_loop :
      ℕ → ℕ → List (Complex T) → List (Complex T) → Option (List (Complex T))
  unfolding minus_assign
  subtract_loop zero u xs ys = some ys
  subtract_loop (suc left) u xs ys = do
    y ← get_elem? ys u
    x ← get_elem? xs u
    subtract_loop left (u + 1) xs (set ys u (minus_assign y x))

  unfoldable pub vect_subtract : List (Complex T) → List (Complex T) → ℕ → Option (List (Complex T))
  unfolding subtract_loop
  vect_subtract xs ys size = subtract_loop size 0 xs ys

  -- The loop of `vectProductSC_I` from `u` on, with the turns left
  unfoldable pub product_loop : ℕ → ℕ → T → List (Complex T) → Option (List (Complex T))
  unfolding scale_assign
  product_loop zero u x ys = some ys
  product_loop (suc left) u x ys = do
    y ← get_elem? ys u
    product_loop left (u + 1) x (set ys u (scale_assign y x))

  unfoldable pub vect_product : T → List (Complex T) → ℕ → Option (List (Complex T))
  unfolding product_loop
  vect_product x ys size = product_loop size 0 x ys
