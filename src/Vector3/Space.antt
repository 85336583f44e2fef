-- ===== src/Vector3/Space.antt =====
-- The geometry of space over a commutative ring.
use fbutils.Prelude.{◌≡◌}
use fbutils.Scalar.{Scalar, IsRing, ◌⊕◌, ◌⊖◌, ◌⊗◌}
use fbutils.Scalar.Trig.{Trig}
use fbutils.Scalar.Ring.{ring_laws, by_cancel}
use fbutils.Vector3.{Vector3, vec3, dot, cross, plus, scale}

pub vec3_ext {ℓ} :
    {T : Type ℓ} {x y z x' y' z' : T} → x ≡ x' → y ≡ y' → z ≡ z' → vec3 x y z ≡ vec3 x' y' z'
vec3_ext p q r = λ i. vec3 (p i) (q i) (r i)

module _ {ℓ} {T : Type ℓ} ⦃s : Scalar T⦄ ⦃t : Trig T⦄ ⦃ring : IsRing T⦄ where
  minor_flip : (p q u v : T) → p ⊗ v ⊖ q ⊗ u ≡ s.neg s.unit ⊗ (u ⊗ q ⊖ v ⊗ p)
  minor_flip p q u v = simp ring_laws

  minor_same : (p q : T) → p ⊗ q ⊖ q ⊗ p ≡ s.nought
  minor_same p q = by_cancel (p ⊗ q) (simp ring_laws)

  minor_sum : (p q u v u' v' : T) → p ⊗ (v ⊕ v') ⊖ q ⊗ (u ⊕ u') ≡ p ⊗ v ⊖ q ⊗ u ⊕ (p ⊗ v' ⊖ q ⊗ u')
  minor_sum p q u v u' v' = simp ring_laws

  perpendicular :
      (x y z u v w : T) → x ⊗ (y ⊗ w ⊖ z ⊗ v) ⊕ y ⊗ (z ⊗ u ⊖ x ⊗ w) ⊕ z ⊗ (x ⊗ v ⊖ y ⊗ u) ≡ s.nought
  perpendicular x y z u v w = by_cancel (x ⊗ (y ⊗ w) ⊕ y ⊗ (z ⊗ u) ⊕ z ⊗ (x ⊗ v)) (simp ring_laws)

  perpendicular_right :
      (x y z u v w : T) → u ⊗ (y ⊗ w ⊖ z ⊗ v) ⊕ v ⊗ (z ⊗ u ⊖ x ⊗ w) ⊕ w ⊗ (x ⊗ v ⊖ y ⊗ u) ≡ s.nought
  perpendicular_right x y z u v w =
      by_cancel (u ⊗ (y ⊗ w) ⊕ v ⊗ (z ⊗ u) ⊕ w ⊗ (x ⊗ v)) (simp ring_laws)

  triple :
      (x y z u v w p q r : T)
      → x ⊗ (v ⊗ r ⊖ w ⊗ q) ⊕ y ⊗ (w ⊗ p ⊖ u ⊗ r) ⊕ z ⊗ (u ⊗ q ⊖ v ⊗ p)
        ≡ u ⊗ (q ⊗ z ⊖ r ⊗ y) ⊕ v ⊗ (r ⊗ x ⊖ p ⊗ z) ⊕ w ⊗ (p ⊗ y ⊖ q ⊗ x)
  triple x y z u v w p q r = simp ring_laws

  -- The cross product of two vectors is orthogonal to both, is the opposite when they are swapped, nought
  -- for a vector and itself, and additive, and the triple product is the same for a cyclic shift.
  cross_lem :
      (a b c : Vector3 T)
      → (dot a (cross a b) ≡ s.nought)
        × (dot b (cross a b) ≡ s.nought)
        × (cross a b ≡ scale (s.neg s.unit) (cross b a))
        × (cross a a ≡ vec3 s.nought s.nought s.nought)
        × (cross a (plus b c) ≡ plus (cross a b) (cross a c))
        × (dot a (cross b c) ≡ dot b (cross c a))
  unfolding dot cross scale plus
  cross_lem a b c = (
    perpendicular a.x a.y a.z b.x b.y b.z,
    perpendicular_right a.x a.y a.z b.x b.y b.z,
    vec3_ext (minor_flip a.y a.z b.y b.z) (minor_flip a.z a.x b.z b.x) (minor_flip a.x a.y b.x b.y),
    vec3_ext (minor_same a.y a.z) (minor_same a.z a.x) (minor_same a.x a.y),
    vec3_ext (minor_sum a.y a.z b.y b.z c.y c.z) (minor_sum a.z a.x b.z b.x c.z c.x)
        (minor_sum a.x a.y b.x b.y c.x c.y),
    triple a.x a.y a.z b.x b.y b.z c.x c.y c.z,
  )
