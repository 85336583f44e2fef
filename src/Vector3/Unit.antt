-- ===== src/Vector3/Unit.antt =====
-- Vectors made one long.
use fbutils.Prelude.{◌≡◌, refl, ◌∙◌, true, false, none, some}
use fbutils.Scalar.{Scalar, IsRing, ◌⊕◌, ◌⊖◌, ◌⊗◌}
use fbutils.Scalar.Trig.{Trig, inv_sqrt}
use fbutils.Scalar.Ring.{ring_laws, by_cancel}
use fbutils.Vector3.{
  Vector3, vec3, cross, sqr_length, normalize, normalize_with_default, normalized,
  normalized_with_default,
}
use fbutils.Vector3.Space.{vec3_ext}

module _ {ℓ} {T : Type ℓ} ⦃s : Scalar T⦄ ⦃t : Trig T⦄ ⦃ring : IsRing T⦄ where
  scaled_squares :
      (x y z k : T)
      → x ⊗ k ⊗ (x ⊗ k) ⊕ y ⊗ k ⊗ (y ⊗ k) ⊕ z ⊗ k ⊗ (z ⊗ k) ≡ k ⊗ k ⊗ (x ⊗ x ⊕ y ⊗ y ⊕ z ⊗ z)
  scaled_squares x y z k = simp ring_laws

  aligned : (p q k : T) → p ⊗ (q ⊗ k) ⊖ q ⊗ (p ⊗ k) ≡ s.nought
  aligned p q k = by_cancel (p ⊗ (q ⊗ k)) (simp ring_laws)

  -- Over a commutative ring, and where `finvsqrt` is exact at the square length of the vector if that does not
  -- compare equal to nought: if it does, the vector fails the assertion of `normalized`, and
  -- `normalizedWithDefault` is the default; if not, both give the same vector, which has the square length 1
  -- and lies on a line with the vector.
  pub normalized_lem :
      (a default : Vector3 T)
      → (s.same (sqr_length a) s.nought ≡ false
          → inv_sqrt (sqr_length a) ⊗ inv_sqrt (sqr_length a) ⊗ sqr_length a ≡ s.unit)
      → (s.same (sqr_length a) s.nought ≡ true
          → (normalized a ≡ none) × (normalized_with_default default a ≡ default))
        × (s.same (sqr_length a) s.nought ≡ false
            → (normalized a ≡ some (normalized_with_default default a))
              × (sqr_length (normalized_with_default default a) ≡ s.unit)
              × (cross a (normalized_with_default default a) ≡ vec3 s.nought s.nought s.nought))
  unfolding normalized normalized_with_default normalize normalize_with_default sqr_length cross
  normalized_lem a default exact =
      let k = inv_sqrt (sqr_length a) in
      (
        λ h. (rw h refl, rw h refl),
        λ h. (
          rw h refl,
          rw h (scaled_squares a.x a.y a.z k ∙ exact h),
          rw h (vec3_ext (aligned a.y a.z k) (aligned a.z a.x k) (aligned a.x a.y k)),
        ),
      )
