-- ===== src/MathUtils/Angles.antt =====
-- `domainAngle`: an angle brought into the domain of -π, exclusive, to π.
use fbutils.Prelude.{◌≡◌, refl, sym, ◌∙◌, ap, true, Bool-cases, inl, inr, some, if◌then◌else◌}
use fbutils.Scalar.{Scalar, IsOrdered, IsRing, ◌⊕◌, ◌⊗◌}
use fbutils.Scalar.Order
use fbutils.Scalar.Ring.{add-mul, unit-mul, add_assoc, add-neg, add_comm, nought-add}
use fbutils.MathUtils.Ranges.{is_domain_angle, domain_angle}

module _ {ℓ} {T : Type ℓ} ⦃s : Scalar T⦄ ⦃ring : IsRing T⦄ (ordered : IsOrdered T) where
  half_turn : (pi : T) → s.neg pi ⊕ (s.unit ⊕ s.unit) ⊗ pi ≡ pi
  half_turn pi =
      ap (λ x. s.neg pi ⊕ x) (add-mul s.unit s.unit pi ∙ rw (unit-mul pi) refl)
      ∙ sym (add_assoc (s.neg pi) pi pi)
      ∙ ap (λ x. x ⊕ pi) (add_comm (s.neg pi) pi ∙ add-neg pi)
      ∙ nought-add pi

  -- Where `std::remainder` of the angle by 2π is between -π and π, both inclusive, the assertion of
  -- `domainAngle` passes: the result is that remainder, or π where it is -π, and lies in the domain.
  domain_angle_lem :
      (remainder : T → T → T) (pi angle : T)
      → let left = remainder angle ((s.unit ⊕ s.unit) ⊗ pi) in
        s.lt (s.neg pi) pi ≡ true
        → s.le (s.neg pi) left ≡ true
        → s.le left pi ≡ true
        → let result = if s.le left (s.neg pi) then pi else left in
          (domain_angle remainder pi angle ≡ some result) × (is_domain_angle pi result ≡ true)
  unfolding domain_angle is_domain_angle
  domain_angle_lem remainder pi angle positive low high =
      let left = remainder angle ((s.unit ⊕ s.unit) ⊗ pi) in
      elim (Bool-cases (s.le left (s.neg pi))) [
        | inl p ↦
            let e : left ⊕ (s.unit ⊕ s.unit) ⊗ pi ≡ pi =
              ap (λ x. x ⊕ (s.unit ⊕ s.unit) ⊗ pi) (ordered.le_antisymm left (s.neg pi) p low)
              ∙ half_turn pi in
            rw (p, e, positive, ordered.le_refl pi) (refl, refl)
        | inr p ↦
            let above = Order.lt_of_le ordered (s.neg pi) left p in rw (p, above, high) (refl, refl)
      ]
