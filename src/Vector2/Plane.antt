-- ===== src/Vector2/Plane.antt =====
-- The geometry of the plane over a commutative ring.
use fbutils.Prelude.{◌≡◌, refl, ◌∙◌}
use fbutils.Scalar.{Scalar, IsRing, ◌⊕◌, ◌⊖◌, ◌⊗◌}
use fbutils.Scalar.Trig.{Trig, IsCircular}
use fbutils.Scalar.Ring.{
  ring_laws, by_cancel, add-neg, mul_comm, unit-mul, neg-neg, neg-mul, mul-neg, add_comm,
}
use fbutils.Vector2.{Vector2, vec2, dot, sqr_length, orthogonal_pos, orthogonal_neg, rotated, scale}

vec2_ext {ℓ} : {T : Type ℓ} {x y x' y' : T} → x ≡ x' → y ≡ y' → vec2 x y ≡ vec2 x' y'
vec2_ext p q = λ i. vec2 (p i) (q i)

module _ {ℓ} {T : Type ℓ} ⦃s : Scalar T⦄ ⦃t : Trig T⦄ ⦃ring : IsRing T⦄ where
  -- A vector is orthogonal to what `orthogonalPos` and `orthogonalNeg` make of it, which have its length
  -- and undo one another, and `orthogonalPos` twice is the opposite vector.
  orthogonal_lem :
      (a : Vector2 T)
      → (dot a (orthogonal_pos a) ≡ s.nought)
        × (dot a (orthogonal_neg a) ≡ s.nought)
        × (sqr_length (orthogonal_pos a) ≡ sqr_length a)
        × (orthogonal_neg (orthogonal_pos a) ≡ a)
        × (orthogonal_pos (orthogonal_neg a) ≡ a)
        × (orthogonal_pos (orthogonal_pos a) ≡ scale (s.neg s.unit) a)
  unfolding dot orthogonal_pos orthogonal_neg sqr_length scale
  orthogonal_lem a = (
    rw (mul-neg a.x a.y, mul_comm a.y a.x, add_comm (s.neg (a.x ⊗ a.y)), add-neg (a.x ⊗ a.y)),
    rw (mul-neg a.y a.x, mul_comm a.y a.x, add-neg (a.x ⊗ a.y)),
    rw (neg-mul a.y (s.neg a.y), mul-neg a.y a.y, neg-neg (a.y ⊗ a.y), add_comm (a.y ⊗ a.y)),
    vec2_ext refl (neg-neg a.y),
    vec2_ext (neg-neg a.x) refl,
    vec2_ext (rw (neg-mul s.unit a.x, unit-mul a.x)) (rw (neg-mul s.unit a.y, unit-mul a.y)),
  )

  dot-rotate :
      (x y u v c d : T)
      → (c ⊗ x ⊖ d ⊗ y) ⊗ (c ⊗ u ⊖ d ⊗ v) ⊕ (d ⊗ x ⊕ c ⊗ y) ⊗ (d ⊗ u ⊕ c ⊗ v)
        ≡ (c ⊗ c ⊕ d ⊗ d) ⊗ (x ⊗ u ⊕ y ⊗ v)
  dot-rotate x y u v c d = by_cancel (x ⊗ (v ⊗ (c ⊗ d)) ⊕ y ⊗ (u ⊗ (c ⊗ d))) (simp ring_laws)

  -- With the exact sine and cosine, `rotated` keeps dot products and lengths, and rotating by the
  -- opposite angle undoes it.
  rotated_lem :
      IsCircular T
      → (a b : Vector2 T) (angle : T)
      → (dot (rotated a angle) (rotated b angle) ≡ dot a b)
        × (sqr_length (rotated a angle) ≡ sqr_length a)
        × (rotated (rotated a angle) (s.neg angle) ≡ a)
  unfolding dot rotated sqr_length
  rotated_lem trig a b angle =
      let c = t.cos angle in
      let d = t.sin angle in
      let keeps : (x y u v : T)
          → (c ⊗ x ⊖ d ⊗ y) ⊗ (c ⊗ u ⊖ d ⊗ v) ⊕ (d ⊗ x ⊕ c ⊗ y) ⊗ (d ⊗ u ⊕ c ⊗ v) ≡ x ⊗ u ⊕ y ⊗ v =
        λ x y u v. dot-rotate x y u v c d ∙ on_circle trig angle (x ⊗ u ⊕ y ⊗ v) in
      (
        keeps a.x a.y b.x b.y,
        keeps a.x a.y a.x a.y,
        vec2_ext
            (rw (trig.cos-neg angle, trig.sin-neg angle)
              (back_x a.x a.y c d ∙ on_circle trig angle a.x))
            (rw (trig.cos-neg angle, trig.sin-neg angle)
              (back_y a.x a.y c d ∙ on_circle trig angle a.y)),
      )
    where
      on_circle :
          IsCircular T
          → (angle z : T) → (t.cos angle ⊗ t.cos angle ⊕ t.sin angle ⊗ t.sin angle) ⊗ z ≡ z
      on_circle trig angle z = rw (trig.circle angle, unit-mul z)

      back_x : (x y c d : T) → c ⊗ (c ⊗ x ⊖ d ⊗ y) ⊖ s.neg d ⊗ (d ⊗ x ⊕ c ⊗ y) ≡ (c ⊗ c ⊕ d ⊗ d) ⊗ x
      back_x x y c d = by_cancel (y ⊗ (c ⊗ d)) (simp ring_laws)

      back_y : (x y c d : T) → s.neg d ⊗ (c ⊗ x ⊖ d ⊗ y) ⊕ c ⊗ (d ⊗ x ⊕ c ⊗ y) ≡ (c ⊗ c ⊕ d ⊗ d) ⊗ y
      back_y x y c d = by_cancel (x ⊗ (c ⊗ d)) (simp ring_laws)
