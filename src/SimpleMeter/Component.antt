-- ===== src/SimpleMeter/Component.antt =====
-- src/include/fbu/simple_meter.cpp: what `SimpleMeterComponent::paint` draws, and how the bar falls.
use fbutils.Prelude.{ℕ, zero, suc, ◌/◌, ◌≡◌, refl, true, false, Bool-cases, inl, inr, List, [], ◌∷◌}
use fbutils.Scalar.{Scalar, IsOrdered, ◌⊕◌, ◌⊖◌, ◌⊗◌}
use fbutils.SimpleMeter.{SimpleMeter, Measures, greater, decibels, bar_height, paint}
use fbutils.SimpleMeter.Display.{paint_lem}

-- The calls of `Graphics`, with colours as numbers
pub data Drawing {ℓ} (T : Type ℓ) : Type ℓ where
  set_fill_type : ℕ → Drawing T
  fill_rounded_rectangle : (x y width height corner : T) → Drawing T
  set_low_quality : Drawing T

module _ {ℓ} {T : Type ℓ} ⦃s : Scalar T⦄ where
  -- What `paint` draws in a component of that width and height: the background, and the bar at the bottom.
  -- `of_int` turns an `int` into a `float`.
  unfoldable pub picture : Measures T → (ℕ → T) → T → ℕ → ℕ → ℕ → ℕ → T → List (Drawing T)
  unfolding bar_height
  picture m of_int floor background foreground width height peak_db =
      let bar = bar_height m floor (of_int height) peak_db in
      set_fill_type background
      ∷ fill_rounded_rectangle (of_int 0) (of_int 0) (of_int width) (of_int height)
          (of_int (width / 2))
      ∷ set_low_quality
      ∷ set_fill_type foreground
      ∷ fill_rounded_rectangle (of_int 0) (of_int height ⊖ bar) (of_int width) bar
          (of_int (width / 2))
      ∷ []

  -- `paint` as a whole: the decibels shown then and the meter, and what is drawn
  unfoldable pub draw :
      Measures T
      → (ℕ → T)
      → T
      → T
      → T
      → ℕ
      → ℕ
      → ℕ
      → ℕ
      → T
      → SimpleMeter T
      → (T × SimpleMeter T) × List (Drawing T)
  unfolding paint picture
  draw m of_int twenty ten floor background foreground width height old meter =
      let (now, left) = paint m twenty ten floor old meter in
      ((now, left), picture m of_int floor background foreground width height now)

  -- So many calls of `paint`, one after the other
  unfoldable pub paint_times : Measures T → T → T → T → ℕ → T → SimpleMeter T → T × SimpleMeter T
  paint_times m twenty ten floor zero old meter = (old, meter)
  paint_times m twenty ten floor (suc k) old meter =
      let (now, left) = paint m twenty ten floor old meter in
      paint_times m twenty ten floor k now left

  -- So many tens above the floor
  abbrev pub rung : T → T → ℕ → T
  rung ten floor zero = floor
  rung ten floor (suc k) = rung ten floor k ⊕ ten

  -- Ten is at least nought, and what is at most ten above a value is, less ten, at most that value.
  pub record IsStep (ten : T) : Type ℓ where
    pub rises : (a : T) → s.le a (a ⊕ ten) ≡ true
    pub falls : (a b : T) → s.le a (b ⊕ ten) ≡ true → s.le (a ⊖ ten) b ≡ true

  module _ (ordered : IsOrdered T) where
    rung-above : (ten floor : T) (k : ℕ) → IsStep ten → s.le floor (rung ten floor k) ≡ true
    rung-above ten floor zero step = ordered.le_refl floor
    rung-above ten floor (suc k) step =
        ordered.le_trans floor (rung ten floor k) (rung ten floor k ⊕ ten)
          (rung-above ten floor k step) (step.rises (rung ten floor k))

    silent_floor :
        (m : Measures T) (twenty floor peak : T)
        → peak ≡ s.nought
        → m.is_normal (twenty ⊗ m.log10 s.nought) ≡ false
        → decibels m twenty floor peak ≡ floor
    unfolding decibels
    silent_floor m twenty floor peak e silent =
        elim (Bool-cases (s.lt (twenty ⊗ m.log10 s.nought) floor)) [
          | inl h ↦ rw (e, h) refl
          | inr h ↦ rw (e, h, silent) refl
        ]

    greater_below : (a b c : T) → s.le a c ≡ true → s.le b c ≡ true → s.le (greater a b) c ≡ true
    unfolding greater
    greater_below a b c p q = elim (Bool-cases (s.lt a b)) [ inl h ↦ rw h q | inr h ↦ rw h p ]

    -- The bar falls to the bottom in silence: where the decibels of a peak of nought are not normal, as those
    -- of minus infinity are not, and what is shown is not below the floor and at most `k` tens above it, `k`
    -- calls of `paint` with no sound in between show the floor, and the peak is nought still.
    pub silence_fades :
        (m : Measures T) (twenty ten floor : T) (k : ℕ) (old : T) (meter : SimpleMeter T)
        → IsStep ten
        → m.is_normal (twenty ⊗ m.log10 s.nought) ≡ false
        → meter.peak ≡ s.nought
        → s.le floor old ≡ true
        → s.le old (rung ten floor k) ≡ true
        → ((paint_times m twenty ten floor k old meter).0 ≡ floor)
          × ((paint_times m twenty ten floor k old meter).1.peak ≡ s.nought)
    unfolding paint_times
    silence_fades m twenty ten floor zero old meter step silent zero_peak above below =
        (ordered.le_antisymm old floor below above, zero_peak)
    silence_fades m twenty ten floor (suc k) old meter step silent zero_peak above below =
        let (now_above, least, loud, fallen, read) =
          paint_lem ordered m twenty ten floor old meter in
        let now : (paint m twenty ten floor old meter).0 ≡ greater (old ⊖ ten) floor =
          fallen (silent_floor m twenty floor meter.peak zero_peak silent) in
        silence_fades m twenty ten floor k (paint m twenty ten floor old meter).0
          (paint m twenty ten floor old meter).1 step silent read now_above
          (rw now (
            greater_below (old ⊖ ten) floor (rung ten floor k)
              (step.falls old (rung ten floor k) below) (rung-above ten floor k step)))
