-- ===== src/Vector2.antt =====
-- include/fbu/vector2.hpp: vectors of the plane over the scalar type `T`.
pub mod Plane
mod Tests
use fbutils.Prelude.{Option, none, some, if◌then◌else◌}
use fbutils.Scalar.{Scalar, ◌⊕◌, ◌⊖◌, ◌⊗◌, ◌⊘◌}
use fbutils.Scalar.Trig.{Trig, inv_sqrt}

pub record Vector2 {ℓ} (T : Type ℓ) : Type ℓ where
  pub x : T
  pub y : T

abbrev pub vec2 {ℓ} : {T : Type ℓ} → T → T → Vector2 T
vec2 x y = record { x = x; y = y }

module _ {ℓ} {T : Type ℓ} ⦃s : Scalar T⦄ ⦃t : Trig T⦄ where
  unfoldable pub dot : Vector2 T → Vector2 T → T
  dot a b = a.x ⊗ b.x ⊕ a.y ⊗ b.y

  unfoldable pub length : Vector2 T → T
  length a = t.hypot a.x a.y

  unfoldable pub sqr_length : Vector2 T → T
  sqr_length a = a.x ⊗ a.x ⊕ a.y ⊗ a.y

  -- `normalize` and `normalized`; `none` is the assertion that fails.
  unfoldable pub normalize : Vector2 T → Option (Vector2 T)
  unfolding sqr_length inv_sqrt
  normalize a =
      let inv = inv_sqrt (sqr_length a) in
      if s.same (sqr_length a) s.nought then none else some (vec2 (a.x ⊗ inv) (a.y ⊗ inv))

  unfoldable pub orthogonal_pos : Vector2 T → Vector2 T
  orthogonal_pos a = vec2 (s.neg a.y) a.x

  unfoldable pub orthogonal_neg : Vector2 T → Vector2 T
  orthogonal_neg a = vec2 a.y (s.neg a.x)

  unfoldable pub rotated : Vector2 T → T → Vector2 T
  rotated a angle =
      vec2 (t.cos angle ⊗ a.x ⊖ t.sin angle ⊗ a.y) (t.sin angle ⊗ a.x ⊕ t.cos angle ⊗ a.y)

  unfoldable pub unsigned_angle : Vector2 T → Vector2 T → T
  unfolding dot length
  unsigned_angle a b = dot a b ⊘ (length a ⊗ length b)

  unfoldable pub angle_sign : Vector2 T → Vector2 T → T
  unfolding dot orthogonal_pos
  angle_sign a b = t.copysign s.unit (dot (orthogonal_pos a) b)

  unfoldable pub signed_angle : Vector2 T → Vector2 T → T
  unfolding angle_sign unsigned_angle
  signed_angle a b = angle_sign a b ⊗ unsigned_angle a b

  -- `operator+`, `operator-`, `operator*` and `operator*=`
  unfoldable pub plus : Vector2 T → Vector2 T → Vector2 T
  plus a b = vec2 (a.x ⊕ b.x) (a.y ⊕ b.y)

  unfoldable pub minus : Vector2 T → Vector2 T → Vector2 T
  minus a b = vec2 (a.x ⊖ b.x) (a.y ⊖ b.y)

  unfoldable pub scale : T → Vector2 T → Vector2 T
  scale k a = vec2 (k ⊗ a.x) (k ⊗ a.y)

  unfoldable pub scale_assign : Vector2 T → T → Vector2 T
  scale_assign a k = vec2 (a.x ⊗ k) (a.y ⊗ k)
