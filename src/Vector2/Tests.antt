-- ===== src/Vector2/Tests.antt =====
-- The theorems on vectors of the plane at vectors whose components are bits.
use fbutils.Prelude.{◌≡◌, refl, Bool, true, false, none}
use fbutils.Scalar.Instances.{bit_scalar, bit_trig}
use fbutils.Vector2.{Vector2, vec2, normalize, rotated}

abbrev east : Vector2 Bool
east = vec2 true false

abbrev north : Vector2 Bool
north = vec2 false true

turn : (rotated east true ≡ north) × (normalize (vec2 false false) ≡ none)
unfolding rotated normalize
turn = (refl, refl)
