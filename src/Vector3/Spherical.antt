-- ===== src/Vector3/Spherical.antt =====
-- Spherical coordinates: to them and back, and what they do to the length.
use fbutils.Prelude.{◌≡◌, refl, ◌∙◌, ap}
use fbutils.Scalar.{Scalar, IsRing, ◌⊕◌, ◌⊗◌}
use fbutils.Scalar.Trig.{Trig, IsCircular, IsPolar}
use fbutils.Scalar.Ring.{ring_laws, mul_assoc, mul-unit, unit-mul}
use fbutils.Vector3.{
  Vector3, Aem, sqr_length, scale, lengthes, aem_from_vector3, with_magnitude, scale_aem,
  ae_from_aem, from_aem, from_aemr, from_ae,
}
use fbutils.Vector3.Space.{vec3_ext}

module _ {ℓ} {T : Type ℓ} ⦃s : Scalar T⦄ ⦃t : Trig T⦄ ⦃ring : IsRing T⦄ where
  -- Where `hypot` and `atan2` give the polar coordinates of the point of the plane below the vector, and of
  -- the point that its length there and its height make, the vector made of its coordinates is the vector.
  from_aem-aem_from_vector3 :
      (v : Vector3 T)
      → IsPolar v.x v.y
      → IsPolar (t.hypot v.x v.y) v.z
      → from_aem (aem_from_vector3 v) ≡ v
  unfolding from_aem aem_from_vector3 lengthes
  from_aem-aem_from_vector3 v (x_right, y_right) (flat_right, z_right) =
      vec3_ext (rw flat_right x_right) (rw flat_right y_right) z_right

  sphere :
      (m c d e f : T)
      → c ⊗ c ⊕ d ⊗ d ≡ s.unit
      → e ⊗ e ⊕ f ⊗ f ≡ s.unit
      → m ⊗ e ⊗ c ⊗ (m ⊗ e ⊗ c) ⊕ m ⊗ e ⊗ d ⊗ (m ⊗ e ⊗ d) ⊕ m ⊗ f ⊗ (m ⊗ f) ≡ m ⊗ m
  sphere m c d e f p q = grouped m c d e f ∙ rw (p, mul-unit (e ⊗ e), q, mul-unit (m ⊗ m))
    where
      grouped :
          (m c d e f : T)
          → m ⊗ e ⊗ c ⊗ (m ⊗ e ⊗ c) ⊕ m ⊗ e ⊗ d ⊗ (m ⊗ e ⊗ d) ⊕ m ⊗ f ⊗ (m ⊗ f)
            ≡ m ⊗ m ⊗ (e ⊗ e ⊗ (c ⊗ c ⊕ d ⊗ d) ⊕ f ⊗ f)
      grouped m c d e f = simp ring_laws

  -- With the exact sine and cosine: the square length of the vector that coordinates stand for is the square
  -- of the magnitude, scaling the coordinates scales the vector, a magnitude of 1 gives the vector that the
  -- coordinates without magnitude give, and the coordinates with reversed azimuth stand for the same vector
  -- as those with the opposite azimuth.
  from_aem_lem :
      IsCircular T
      → (a : Aem T) (k : T)
      → (sqr_length (from_aem a) ≡ a.magnitude ⊗ a.magnitude)
        × (from_aem (scale_aem k a) ≡ scale k (from_aem a))
        × (from_aem (with_magnitude s.unit a) ≡ from_ae (ae_from_aem a))
        × (from_aemr (record {
          azimuth = s.neg a.azimuth;
          elevation = a.elevation;
          magnitude = a.magnitude;
        })
            ≡ from_aem a)
  unfolding sqr_length from_aem from_aemr from_ae scale_aem scale with_magnitude ae_from_aem
  from_aem_lem trig a k =
      let c = t.cos a.azimuth in
      let d = t.sin a.azimuth in
      let e = t.cos a.elevation in
      let f = t.sin a.elevation in
      let m = a.magnitude in
      (
        sphere m c d e f (trig.circle a.azimuth) (trig.circle a.elevation),
        vec3_ext (three k m e c) (three k m e d) (mul_assoc k m f),
        vec3_ext (ap (λ z. z ⊗ c) (unit-mul e)) (ap (λ z. z ⊗ d) (unit-mul e)) (unit-mul f),
        vec3_ext (ap (λ z. m ⊗ e ⊗ z) (trig.cos-neg a.azimuth))
            (ap (λ z. s.neg m ⊗ e ⊗ z) (trig.sin-neg a.azimuth) ∙ opposite m e d) refl,
      )
    where
      three : (k m e c : T) → k ⊗ m ⊗ e ⊗ c ≡ k ⊗ (m ⊗ e ⊗ c)
      three k m e c = simp ring_laws

      opposite : (m e d : T) → s.neg m ⊗ e ⊗ s.neg d ≡ m ⊗ e ⊗ d
      opposite m e d = simp ring_laws
