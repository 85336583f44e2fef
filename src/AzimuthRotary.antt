-- ===== src/AzimuthRotary.antt =====
-- include/fbu/azimuth_rotary.hpp and include/fbu/elevation_rotary.hpp: how the two sliders are set up, and what
-- `AzimuthRotary` does of its own. The functions of `Slider` are parameters.
use fbutils.Prelude.{Bool, false, ◌&&◌, if◌then◌else◌, ◌≡◌, refl, sym, ◌∙◌, ap}
use fbutils.Scalar.{Scalar, IsRing, ◌⊕◌, ◌⊖◌, ◌⊗◌}
use fbutils.Scalar.Ring.{
  ring_laws, sub-neg, neg-add, neg-neg, add_assoc, add-neg, add-nought, add-mul, unit-mul,
  nought-add,
}

pub record Slider {ℓ} (T : Type ℓ) : Type ℓ where
  pub proportion_of_length_to_value : T → T
  pub value_to_proportion_of_length : T → T

data Style : Type 0 where
  rotary : Style
  rotary_vertical_drag : Style

data Cursor : Type 0 where
  normal : Cursor
  crosshair : Cursor

-- What the constructors set
record Setup {ℓ} (T : Type ℓ) : Type ℓ where
  double_click_value : T
  style : Style
  start_angle : T
  end_angle : T
  stop_at_end : Bool
  cursor : Cursor

-- `mouseDown` and `mouseDoubleClick`, for what `Slider` does then, and whether Ctrl and Command are down
unfoldable mouse_down {ℓ} : {S : Type ℓ} → (S → S) → Bool → Bool → S → S
mouse_down slider ctrl command state = if ctrl && command then state else slider state

unfoldable mouse_double_click {ℓ} : {S : Type ℓ} → (S → S) → Bool → Bool → S → S
mouse_double_click slider ctrl command state = if ctrl && command then state else slider state

module _ {ℓ} {T : Type ℓ} ⦃s : Scalar T⦄ where
  -- The constructors, for the values of `M_PIf`, `2.f` and `3.f`
  unfoldable azimuth_rotary : T → T → Setup T
  azimuth_rotary pi three = record {
    double_click_value = s.nought;
    style = rotary;
    start_angle = pi;
    end_angle = three ⊗ pi;
    stop_at_end = false;
    cursor = crosshair;
  }

  unfoldable elevation_rotary : T → T → Setup T
  elevation_rotary pi two = record {
    double_click_value = s.nought;
    style = rotary_vertical_drag;
    start_angle = pi;
    end_angle = two ⊗ pi;
    stop_at_end = false;
    cursor = normal;
  }

  unfoldable proportion_of_length_to_value : Slider T → T → T
  proportion_of_length_to_value slider proportion =
      s.unit ⊖ slider.proportion_of_length_to_value proportion

  unfoldable value_to_proportion_of_length : Slider T → T → T
  value_to_proportion_of_length slider value = s.unit ⊖ slider.value_to_proportion_of_length value

module _ {ℓ} {T : Type ℓ} ⦃s : Scalar T⦄ ⦃ring : IsRing T⦄ where
  back : (x : T) → s.unit ⊖ (s.unit ⊖ x) ≡ x
  back x =
      rw (sub-neg s.unit (s.unit ⊖ x), sub-neg s.unit x, neg-add s.unit (s.neg x), neg-neg x)
        (sym (add_assoc s.unit (s.neg s.unit) x) ∙ ap (λ y. y ⊕ x) (add-neg s.unit) ∙ nought-add x)

  turned_ends :
      (low high x : T) → low ⊕ high ⊖ (low ⊕ (high ⊖ low) ⊗ x) ≡ low ⊕ (high ⊖ low) ⊗ (s.unit ⊖ x)
  turned_ends low high x = simp ring_laws

  -- For a slider without skew from `low` to `high`, the functions undo each other if the ends add up to 1, as
  -- those of 0 and 1 do: the value turned around is then that of the proportion turned around.
  value_to_proportion_of_length-proportion_of_length_to_value :
      (slider : Slider T) (low high : T)
      → low ⊕ high ≡ s.unit
      → ((x : T) → slider.proportion_of_length_to_value x ≡ low ⊕ (high ⊖ low) ⊗ x)
      → ((x : T)
          → slider.value_to_proportion_of_length (slider.proportion_of_length_to_value x) ≡ x)
      → (x : T) → value_to_proportion_of_length slider (proportion_of_length_to_value slider x) ≡ x
  unfolding proportion_of_length_to_value value_to_proportion_of_length
  value_to_proportion_of_length-proportion_of_length_to_value slider low high ends linear undoes x =
      let turned : s.unit ⊖ slider.proportion_of_length_to_value x
          ≡ slider.proportion_of_length_to_value (s.unit ⊖ x) =
        ap (λ y. s.unit ⊖ y) (linear x)
        ∙ ap (λ y. y ⊖ (low ⊕ (high ⊖ low) ⊗ x)) (sym ends)
        ∙ turned_ends low high x
        ∙ sym (linear (s.unit ⊖ x)) in
      ap (λ y. s.unit ⊖ slider.value_to_proportion_of_length y) turned
      ∙ ap (λ y. s.unit ⊖ y) (undoes (s.unit ⊖ x))
      ∙ back x

  less_one : (k x : T) → (k ⊕ s.unit) ⊗ x ⊖ x ≡ k ⊗ x
  less_one k x =
      rw (sub-neg ((k ⊕ s.unit) ⊗ x) x, add-mul k s.unit x, unit-mul x)
        (add_assoc (k ⊗ x) x (s.neg x) ∙ ap (λ y. k ⊗ x ⊕ y) (add-neg x) ∙ add-nought (k ⊗ x))

  -- The azimuth goes all the way around, the elevation half of the way, from the same angle.
  sweeps_lem :
      (pi : T)
      → let two = s.unit ⊕ s.unit in
        let azimuth = azimuth_rotary pi (two ⊕ s.unit) in
        let elevation = elevation_rotary pi two in
        (azimuth.end_angle ⊖ azimuth.start_angle ≡ two ⊗ pi)
        × (elevation.end_angle ⊖ elevation.start_angle ≡ pi)
        × (azimuth.start_angle ≡ elevation.start_angle)
  unfolding azimuth_rotary elevation_rotary
  sweeps_lem pi = (less_one (s.unit ⊕ s.unit) pi, less_one s.unit pi ∙ unit-mul pi, refl)
