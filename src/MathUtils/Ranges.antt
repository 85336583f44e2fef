-- ===== src/MathUtils/Ranges.antt =====
-- include/fbu/math_utils.hpp: `limitRange`, `limitedRange`, `inRange`, `affineTransform`,
-- `affineTransformLimited` and the functions on the domain of angles. `none` is the assertion that fails.
use fbutils.Prelude.{
  ◌≡◌, ◌∙◌, ap, Bool, true, false, ◌&&◌, Option, none, some, if◌then◌else◌, Bool-cases, arith, inl,
  inr,
}
use fbutils.Scalar.{Scalar, IsOrdered, IsRing, ◌⊕◌, ◌⊖◌, ◌⊗◌, ◌⊘◌}
use fbutils.Scalar.Order
use fbutils.Scalar.Ring.{ring_laws, by_cancel}

module _ {ℓ} {T : Type ℓ} ⦃s : Scalar T⦄ where
  unfoldable pub limit_range : T → T → T → Option T
  limit_range value low high =
      if s.le low high
      then some (if s.lt value low then low else if s.lt high value then high else value)
      else none

  unfoldable pub limited_range : T → T → T → Option T
  limited_range value low high =
      if s.le low high
      then (if s.lt value low then some low else if s.lt high value then some high else some value)
      else none

  unfoldable pub in_range : T → T → T → Bool
  in_range value low high = s.le low value && s.le value high

  unfoldable pub affine_transform : T → T → T → T → T → T
  affine_transform from_min from_max to_min to_max value =
      to_min ⊕ (to_max ⊖ to_min) ⊗ (value ⊖ from_min) ⊘ (from_max ⊖ from_min)

  unfoldable pub affine_transform_limited : T → T → T → T → T → Option T
  unfolding limited_range affine_transform
  affine_transform_limited from_min from_max to_min to_max value =
      limited_range (affine_transform from_min from_max to_min to_max value) to_min to_max

  -- `isDomainAngle`, for the value of π
  unfoldable pub is_domain_angle : T → T → Bool
  is_domain_angle pi angle = s.lt (s.neg pi) angle && s.le angle pi

  unfoldable pub is_domain_angle_permissive : T → T → Bool
  is_domain_angle_permissive pi angle = s.le (s.neg pi) angle && s.le angle pi

  -- `domainAngleSimple`, whose input may be one turn out of the domain
  unfoldable pub domain_angle_simple : T → T → Option T
  unfolding is_domain_angle
  domain_angle_simple pi angle =
      let turned =
        if s.lt pi angle
        then angle ⊖ (s.unit ⊕ s.unit) ⊗ pi
        else if s.le angle (s.neg pi)
        then angle ⊕ (s.unit ⊕ s.unit) ⊗ pi
        else angle in
      if is_domain_angle pi turned then some turned else none

  -- `domainAngle`; the first argument is `std::remainder`.
  unfoldable pub domain_angle : (T → T → T) → T → T → Option T
  unfolding is_domain_angle
  domain_angle remainder pi angle =
      let left = remainder angle ((s.unit ⊕ s.unit) ⊗ pi) in
      let turned = if s.le left (s.neg pi) then left ⊕ (s.unit ⊕ s.unit) ⊗ pi else left in
      if is_domain_angle pi turned then some turned else none

module _ {ℓ} {T : Type ℓ} ⦃s : Scalar T⦄ (ordered : IsOrdered T) where
  limited_inside :
      (value low high : T)
      → in_range value low high ≡ true
      → limited_range value low high ≡ some value
  unfolding limited_range in_range
  limited_inside value low high h =
      let p : s.le low value ≡ true = ground arith in
      let q : s.le value high ≡ true = ground arith in
      ground (
        arith,
        ordered.le_trans low value high p q,
        ordered.lt-not-le value low,
        ordered.lt-not-le high value,
      )

  limit_range-limited_range :
      (value low high : T) → limit_range value low high ≡ limited_range value low high
  unfolding limit_range limited_range
  limit_range-limited_range value low high = ground arith

  limited_value :
      (value low high : T)
      → s.le low high ≡ true
      → (w : T) × (limited_range value low high ≡ some w) × (in_range w low high ≡ true)
  unfolding limited_range in_range
  limited_value value low high h = elim (Bool-cases (s.lt value low)) [
    | inl p ↦ (low, ground arith, ground (arith, ordered.le_refl low))
    | inr p ↦ elim (Bool-cases (s.lt high value)) [
      | inl q ↦ (high, ground arith, ground (arith, ordered.le_refl high))
      | inr q ↦ (
        value,
        ground arith,
        ground (
          arith,
          Order.le_of_not_lt ordered value low p,
          Order.le_of_not_lt ordered high value q,
        ),
      )
    ]
  ]

  -- An angle of the domain is returned as it is by `domainAngleSimple`.
  domain_angle_simple-inside :
      (pi angle : T) → is_domain_angle pi angle ≡ true → domain_angle_simple pi angle ≡ some angle
  unfolding domain_angle_simple is_domain_angle
  domain_angle_simple-inside pi angle h =
      let above : s.lt (s.neg pi) angle ≡ true = ground arith in
      let below : s.le angle pi ≡ true = ground arith in
      let not_above : s.lt pi angle ≡ false = ground (arith, ordered.lt-not-le pi angle) in
      let not_below : s.le angle (s.neg pi) ≡ false =
        ground (arith, ordered.lt-not-le (s.neg pi) angle) in
      ground arith

  -- For bounds in order, `limitedRange` gives a value within them, which it does not change again; a value
  -- within them it does not change, and the variable that `limitRange` changes holds the same value. The
  -- transform that is limited to a range in order gives a value within that range.
  limited_range_lem :
      (value low high : T)
      → s.le low high ≡ true
      → ((w : T) × (limited_range value low high ≡ some w)
          × (in_range w low high ≡ true)
          × (limited_range w low high ≡ some w))
        × (in_range value low high ≡ true → limited_range value low high ≡ some value)
        × (limit_range value low high ≡ limited_range value low high)
        × ((from_min from_max : T)
            → (w : T) × (affine_transform_limited from_min from_max low high value ≡ some w)
              × (in_range w low high ≡ true))
  unfolding affine_transform_limited
  limited_range_lem value low high h =
      let (w, result, inside) = limited_value value low high h in
      (
        (w, result, inside, limited_inside w low high inside),
        limited_inside value low high,
        limit_range-limited_range value low high,
        λ from_min from_max.
            limited_value (affine_transform from_min from_max low high value) low high h,
      )

module _ {ℓ} {T : Type ℓ} ⦃s : Scalar T⦄ ⦃ring : IsRing T⦄ where
  -- Where dividing by the length of the source range undoes multiplying by it, the transform takes the ends
  -- of the source range to the ends of the target range.
  affine_transform_lem :
      (from_min from_max to_min to_max : T)
      → ((a : T) → a ⊗ (from_max ⊖ from_min) ⊘ (from_max ⊖ from_min) ≡ a)
      → (affine_transform from_min from_max to_min to_max from_min ≡ to_min)
        × (affine_transform from_min from_max to_min to_max from_max ≡ to_max)
  unfolding affine_transform
  affine_transform_lem from_min from_max to_min to_max undo = (
    ap (λ z. to_min ⊕ z ⊘ (from_max ⊖ from_min)) (at_start (to_max ⊖ to_min) from_min from_max)
        ∙ rw (undo s.nought) (simp ring_laws),
    rw (undo (to_max ⊖ to_min)) (by_cancel to_min (simp ring_laws)),
  )
    where
      at_start : (r a b : T) → r ⊗ (a ⊖ a) ≡ s.nought ⊗ (b ⊖ a)
      at_start r a b = by_cancel (r ⊗ a) (simp ring_laws)
