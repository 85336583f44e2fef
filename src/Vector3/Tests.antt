-- ===== src/Vector3/Tests.antt =====
-- The theorems on vectors of space at vectors whose components are bits.
use fbutils.Prelude.{◌≡◌, refl, Bool, true, false, none, some}
use fbutils.Scalar.Instances.{bit_scalar, bit_trig, bit-IsRing}
use fbutils.Vector3.{
  Vector3, vec3, cross, sqr_length, normalized, normalized_with_default, normalize_with_default,
}
use fbutils.Vector3.Unit.{normalized_lem}
use fbutils.Scalar.Trig.{inv_sqrt}

abbrev east : Vector3 Bool
east = vec3 true false false

abbrev origin : Vector3 Bool
origin = vec3 false false false

abbrev north : Vector3 Bool
north = vec3 false true false

abbrev up : Vector3 Bool
up = vec3 false false true

right_handed : cross east north ≡ up
unfolding cross
right_handed = refl

right_angle :
    (cross up north ≡ normalized_with_default north (cross up north)) × (sqr_length up ≡ true)
unfolding cross sqr_length normalized_with_default normalize_with_default inv_sqrt
right_angle = (refl, refl)

normalized_lem_example :
    (false ≡ true → (normalized up ≡ none) × (normalized_with_default north up ≡ north))
    × (false ≡ false
        → (normalized up ≡ some (normalized_with_default north up))
          × (sqr_length (normalized_with_default north up) ≡ true)
          × (cross up (normalized_with_default north up) ≡ origin))
unfolding sqr_length inv_sqrt
normalized_lem_example = normalized_lem ⦃ring = bit-IsRing⦄ up north (λ h. refl)
