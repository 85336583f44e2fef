-- ===== src/Vector3/Angles.antt =====
-- include/fbu/vector3.hpp: `AE::fromNormalizedVector3`, `AEM::fromNormalizedVector3` and
-- `Vector3_to_AEMr`. `none` is an assertion that fails; the two assertions of `Vector3_to_AEMr`, which name
-- `inRange` without its namespace, are read as those of `mu::inRange`.
use fbutils.Prelude.{◌≡◌, refl, true, Option, none, some, if◌then◌else◌, ◌>>=◌}
use fbutils.Scalar.{Scalar, ◌⊘◌}
use fbutils.Scalar.Trig.{Trig, IsPolar}
use fbutils.MathUtils.Ranges.{in_range}
use fbutils.Vector3.{Vector3, Ae, Aem, Aemr, from_ae}
use fbutils.Vector3.Space.{vec3_ext}

module _ {ℓ} {T : Type ℓ} ⦃s : Scalar T⦄ ⦃t : Trig T⦄ where
  -- `assert(mu::inRange(value, (T)(-1), (T)1))`
  unfoldable pub assert_sine : T → Option T
  unfolding in_range
  assert_sine value = if in_range value (s.neg s.unit) s.unit then some value else none

  unfoldable pub ae_from_normalized : Vector3 T → Option (Ae T)
  unfolding assert_sine
  ae_from_normalized v = do
    sine ← assert_sine v.z
    some (record { azimuth = t.atan2 v.y v.x; elevation = t.asin sine })

  -- The first argument is what the magnitude happens to hold, which the code does not set.
  unfoldable pub aem_from_normalized : T → Vector3 T → Option (Aem T)
  unfolding assert_sine
  aem_from_normalized unset v = do
    sine ← assert_sine v.z
    some (record { azimuth = t.atan2 v.y v.x; elevation = t.asin sine; magnitude = unset })

  -- The azimuth of `Vector3_to_AEMr`, from the vector and the length of its shadow in the plane
  unfoldable pub azimuth_of : Vector3 T → T → Option T
  unfolding assert_sine
  azimuth_of v flat = do
    cosine ← assert_sine (v.x ⊘ flat)
    some (if s.lt s.nought v.y then s.neg (t.acos cosine) else t.acos cosine)

  -- The first argument is the elevation up to which the azimuth is worked out, half a degree from the pole.
  unfoldable pub to_aemr : T → Vector3 T → Option (Aemr T)
  unfolding assert_sine azimuth_of
  to_aemr near_pole v =
      let flat = t.hypot v.x v.y in
      let magnitude = t.hypot flat v.z in
      if s.same magnitude s.nought
      then some (record { azimuth = s.nought; elevation = s.nought; magnitude = magnitude })
      else do
        sine ← assert_sine (v.z ⊘ magnitude)
        azimuth ←
            (if s.le (t.abs (t.asin sine)) near_pole then azimuth_of v flat else some s.nought)
        some (record { azimuth = azimuth; elevation = t.asin sine; magnitude = magnitude })

  -- For a vector whose height is within the range, with exact arithmetic on its angles, the azimuth and
  -- elevation of `AE::fromNormalizedVector3` stand for the vector.
  from_ae-ae_from_normalized :
      (v : Vector3 T)
      → in_range v.z (s.neg s.unit) s.unit ≡ true
      → IsPolar v.x v.y
      → t.cos (t.asin v.z) ≡ t.hypot v.x v.y
      → t.sin (t.asin v.z) ≡ v.z
      → (a : Ae T) × (ae_from_normalized v ≡ some a) × (from_ae a ≡ v)
  unfolding ae_from_normalized assert_sine from_ae
  from_ae-ae_from_normalized v inside (x_right, y_right) flat height = (
    record { azimuth = t.atan2 v.y v.x; elevation = t.asin v.z },
    rw inside refl,
    vec3_ext (rw flat x_right) (rw flat y_right) height,
  )
