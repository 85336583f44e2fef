-- ===== src/Complex/Tests.antt =====
-- The theorems on complex numbers at numbers whose parts are bits.
use fbutils.Prelude.{◌≡◌, refl, Bool, true, false, List, [], ◌∷◌}
use fbutils.Scalar.Instances.{bit_scalar, bit-IsRing}
use fbutils.Complex.{Complex, complex, sqrmag, times, over, over_assign}
use fbutils.Complex.Field.{over_assign_lem}

abbrev one : Complex Bool
one = complex true false

abbrev i_unit : Complex Bool
i_unit = complex false true

times_values : (times one i_unit ≡ i_unit) × (times i_unit i_unit ≡ one)
unfolding times
times_values = (refl, refl)

over_assign_lem_example :
    (over_assign one i_unit ≡ over (over one i_unit) i_unit)
    × (times (over_assign one i_unit) i_unit ≡ over one i_unit)
unfolding sqrmag
over_assign_lem_example = over_assign_lem ⦃ring = bit-IsRing⦄ one i_unit refl

abbrev four : List (Complex Bool)
four = one ∷ i_unit ∷ one ∷ one ∷ []
