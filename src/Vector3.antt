-- ===== src/Vector3.antt =====
-- include/fbu/vector3.hpp: vectors of space over the scalar type `T`, and their spherical coordinates.
-- `T` is `float`, which the functions with a `float` in them take it to be; the functions of `<cmath>` are
-- those of a build that is not for Emscripten.
pub mod Space
pub mod Unit
pub mod Order
pub mod Spherical
pub mod Angles
mod Tests
use fbutils.Prelude.{Bool, true, false, ◌&&◌, Option, none, some, if◌then◌else◌}
use fbutils.Scalar.{Scalar, ◌⊕◌, ◌⊖◌, ◌⊗◌}
use fbutils.Scalar.Trig.{Trig, inv_sqrt}

pub record Vector3 {ℓ} (T : Type ℓ) : Type ℓ where
  pub x : T
  pub y : T
  pub z : T

-- Azimuth and elevation
pub record Ae {ℓ} (T : Type ℓ) : Type ℓ where
  pub azimuth : T
  pub elevation : T

-- Azimuth, elevation and magnitude
pub record Aem {ℓ} (T : Type ℓ) : Type ℓ where
  pub azimuth : T
  pub elevation : T
  pub magnitude : T

-- The same with the azimuth positive to the right
pub record Aemr {ℓ} (T : Type ℓ) : Type ℓ where
  pub azimuth : T
  pub elevation : T
  pub magnitude : T

-- `AE::ae`, `AEM::aem` and the constructor of `AEMr`, and `cartesian`
abbrev pub ae {ℓ} : {T : Type ℓ} → T → T → Ae T
ae azimuth elevation = record { azimuth = azimuth; elevation = elevation }

abbrev pub aem {ℓ} : {T : Type ℓ} → T → T → T → Aem T
aem azimuth elevation magnitude = record {
  azimuth = azimuth;
  elevation = elevation;
  magnitude = magnitude;
}

abbrev pub aemr {ℓ} : {T : Type ℓ} → T → T → T → Aemr T
aemr azimuth elevation magnitude = record {
  azimuth = azimuth;
  elevation = elevation;
  magnitude = magnitude;
}

abbrev pub vec3 {ℓ} : {T : Type ℓ} → T → T → T → Vector3 T
vec3 x y z = record { x = x; y = y; z = z }

module _ {ℓ} {T : Type ℓ} ⦃s : Scalar T⦄ ⦃t : Trig T⦄ where
  unfoldable pub is_zero : Vector3 T → Bool
  is_zero a = s.same a.x s.nought && s.same a.y s.nought && s.same a.z s.nought

  unfoldable pub dot : Vector3 T → Vector3 T → T
  dot a b = a.x ⊗ b.x ⊕ a.y ⊗ b.y ⊕ a.z ⊗ b.z

  unfoldable pub cross : Vector3 T → Vector3 T → Vector3 T
  cross a b = vec3 (a.y ⊗ b.z ⊖ a.z ⊗ b.y) (a.z ⊗ b.x ⊖ a.x ⊗ b.z) (a.x ⊗ b.y ⊖ a.y ⊗ b.x)

  unfoldable pub sqr_length : Vector3 T → T
  sqr_length a = a.x ⊗ a.x ⊕ a.y ⊗ a.y ⊕ a.z ⊗ a.z

  unfoldable pub length : Vector3 T → T
  length a = t.sqrt (a.x ⊗ a.x ⊕ a.y ⊗ a.y ⊕ a.z ⊗ a.z)

  -- `lengthes`: the length in space and the length in the plane
  unfoldable pub lengthes : Vector3 T → T × T
  lengthes a = let flat = t.hypot a.x a.y in (t.hypot flat a.z, flat)

  -- `normalize`; `none` is the assertion that fails.
  unfoldable pub normalize : Vector3 T → Option (Vector3 T)
  unfolding sqr_length inv_sqrt
  normalize a =
      let inv = inv_sqrt (sqr_length a) in
      if s.same (sqr_length a) s.nought
      then none
      else some (vec3 (a.x ⊗ inv) (a.y ⊗ inv) (a.z ⊗ inv))

  -- `normalizeWithDefault`
  unfoldable pub normalize_with_default : Vector3 T → Vector3 T → Vector3 T
  unfolding sqr_length inv_sqrt
  normalize_with_default default a =
      let inv = inv_sqrt (sqr_length a) in
      if s.same (sqr_length a) s.nought then default else vec3 (a.x ⊗ inv) (a.y ⊗ inv) (a.z ⊗ inv)

  -- On a copy
  unfoldable pub normalized : Vector3 T → Option (Vector3 T)
  normalized a = normalize a

  unfoldable pub normalized_with_default : Vector3 T → Vector3 T → Vector3 T
  normalized_with_default default a = normalize_with_default default a

  -- The constructor of `AEMr` without arguments
  unfoldable pub new_aemr : Aemr T
  new_aemr = aemr s.nought s.nought s.nought

  -- `operator+`, `operator-`, `operator*`, `operator*=`, `operator+=` and `operator<`
  unfoldable pub plus : Vector3 T → Vector3 T → Vector3 T
  plus a b = vec3 (a.x ⊕ b.x) (a.y ⊕ b.y) (a.z ⊕ b.z)

  unfoldable pub minus : Vector3 T → Vector3 T → Vector3 T
  minus a b = vec3 (a.x ⊖ b.x) (a.y ⊖ b.y) (a.z ⊖ b.z)

  unfoldable pub scale : T → Vector3 T → Vector3 T
  scale k a = vec3 (k ⊗ a.x) (k ⊗ a.y) (k ⊗ a.z)

  unfoldable pub scale_assign : Vector3 T → T → Vector3 T
  scale_assign a k = vec3 (a.x ⊗ k) (a.y ⊗ k) (a.z ⊗ k)

  unfoldable pub plus_assign : Vector3 T → Vector3 T → Vector3 T
  plus_assign a b = vec3 (a.x ⊕ b.x) (a.y ⊕ b.y) (a.z ⊕ b.z)

  unfoldable pub less : Vector3 T → Vector3 T → Bool
  less a b =
      if s.lt a.x b.x
      then true
      else if s.same a.x b.x
      then (if s.lt a.y b.y
          then true
          else if s.same a.y b.y
          then (if s.lt a.z b.z then true else false)
          else false)
      else false

  -- `AEM::fromVector3`
  unfoldable pub aem_from_vector3 : Vector3 T → Aem T
  unfolding lengthes
  aem_from_vector3 v =
      let (magnitude, flat) = lengthes v in
      record { azimuth = t.atan2 v.y v.x; elevation = t.atan2 v.z flat; magnitude = magnitude }

  -- `AEM::withMagnitude`
  unfoldable pub with_magnitude : T → Aem T → Aem T
  with_magnitude m a = record { azimuth = a.azimuth; elevation = a.elevation; magnitude = m }

  -- `operator*` of a scalar and an `AEM`
  unfoldable pub scale_aem : T → Aem T → Aem T
  scale_aem k a = record {
    azimuth = a.azimuth;
    elevation = a.elevation;
    magnitude = k ⊗ a.magnitude;
  }

  -- `AE::fromAEM`
  unfoldable pub ae_from_aem : Aem T → Ae T
  ae_from_aem a = record { azimuth = a.azimuth; elevation = a.elevation }

  -- `Vector3::fromAEMr`
  unfoldable pub from_aemr : Aemr T → Vector3 T
  from_aemr a =
      vec3 (a.magnitude ⊗ t.cos a.elevation ⊗ t.cos a.azimuth)
        (s.neg a.magnitude ⊗ t.cos a.elevation ⊗ t.sin a.azimuth) (a.magnitude ⊗ t.sin a.elevation)

  -- `Vector3::fromAEM`
  unfoldable pub from_aem : Aem T → Vector3 T
  from_aem a =
      vec3 (a.magnitude ⊗ t.cos a.elevation ⊗ t.cos a.azimuth)
        (a.magnitude ⊗ t.cos a.elevation ⊗ t.sin a.azimuth) (a.magnitude ⊗ t.sin a.elevation)

  -- `Vector3::fromAE`
  unfoldable pub from_ae : Ae T → Vector3 T
  from_ae a =
      vec3 (t.cos a.elevation ⊗ t.cos a.azimuth) (t.cos a.elevation ⊗ t.sin a.azimuth)
        (t.sin a.elevation)
