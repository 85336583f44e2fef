-- ===== src/Scalar/Trig.antt =====
-- The functions of `<cmath>` that the geometry calls: parameters of the model. `finvsqrt` of
-- include/fbu/math_utils.hpp is made of one.
use fbutils.Prelude.{◌≡◌}
use fbutils.Scalar.{Scalar, ◌⊕◌, ◌⊗◌, ◌⊘◌}

pub record Trig {ℓ} (T : Type ℓ) : Type ℓ where
  pub sin : T → T
  pub cos : T → T
  pub asin : T → T
  pub acos : T → T
  pub abs : T → T
  pub atan2 : T → T → T
  pub hypot : T → T → T
  pub copysign : T → T → T
  pub sqrt : T → T

-- `finvsqrt`
unfoldable pub inv_sqrt {ℓ} : {T : Type ℓ} ⦃s : Scalar T⦄ ⦃t : Trig T⦄ → T → T
inv_sqrt ⦃s⦄ ⦃t⦄ x = s.unit ⊘ t.sqrt x

-- What holds of the exact sine and cosine.
pub record IsCircular {ℓ} (T : Type ℓ) ⦃s : Scalar T⦄ ⦃t : Trig T⦄ : Type ℓ where
  pub circle : (a : T) → t.cos a ⊗ t.cos a ⊕ t.sin a ⊗ t.sin a ≡ s.unit
  pub cos-neg : (a : T) → t.cos (s.neg a) ≡ t.cos a
  pub sin-neg : (a : T) → t.sin (s.neg a) ≡ s.neg (t.sin a)

-- `hypot` and `atan2` are the polar coordinates of a point.
abbrev pub IsPolar {ℓ} : {T : Type ℓ} ⦃s : Scalar T⦄ ⦃t : Trig T⦄ → T → T → Type ℓ
IsPolar ⦃s⦄ ⦃t⦄ x y =
    (t.hypot x y ⊗ t.cos (t.atan2 y x) ≡ x) × (t.hypot x y ⊗ t.sin (t.atan2 y x) ≡ y)
