-- ===== src/SimpleMeter/Display.antt =====
-- The decibels that are read and shown.
use fbutils.Prelude.{◌≡◌, refl, ap, true, false, Bool-cases, inl, inr, arith}
use fbutils.Scalar.{Scalar, IsOrdered, IsRing, ◌⊖◌, ◌⊗◌}
use fbutils.Scalar.Order
use fbutils.Scalar.Ring.{mul-nought}
use fbutils.SimpleMeter.{
  SimpleMeter, Measures, greater, get_peak_amplitude_and_reset, decibels, get_peak_db_and_reset,
  shown, paint,
}

module _ {ℓ} {T : Type ℓ} ⦃s : Scalar T⦄ (ordered : IsOrdered T) where
  greater_right : (a b : T) → s.le b (greater a b) ≡ true
  unfolding greater
  greater_right a b = elim (Bool-cases (s.lt a b)) [
    | inl h ↦ rw h (ordered.le_refl b)
    | inr h ↦ rw h (Order.le_of_not_lt ordered a b h)
  ]

  decibels-above :
      (m : Measures T) (twenty floor peak : T) → s.le floor (decibels m twenty floor peak) ≡ true
  unfolding decibels
  decibels-above m twenty floor peak = elim (Bool-cases (s.lt (twenty ⊗ m.log10 peak) floor)) [
    | inl h ↦ rw h (ordered.le_refl floor)
    | inr h ↦ elim (Bool-cases (m.is_normal (twenty ⊗ m.log10 peak))) [
      | inl n ↦ rw (h, n) (Order.le_of_not_lt ordered (twenty ⊗ m.log10 peak) floor h)
      | inr n ↦ rw (h, n) (ordered.le_refl floor)
    ]
  ]

  -- `paint` never shows less than the floor of -144, which is also the least that it reads; it shows what it
  -- reads where that is more, and if not what it showed less 10, or the floor where that is more; and the
  -- peak is nought behind it.
  pub paint_lem :
      (m : Measures T) (twenty ten floor old : T) (meter : SimpleMeter T)
      → let read = decibels m twenty floor meter.peak in
        (s.le floor (paint m twenty ten floor old meter).0 ≡ true)
        × (s.le floor read ≡ true)
        × (s.lt floor read ≡ true → (paint m twenty ten floor old meter).0 ≡ read)
        × (read ≡ floor → (paint m twenty ten floor old meter).0 ≡ greater (old ⊖ ten) floor)
        × ((paint m twenty ten floor old meter).1.peak ≡ s.nought)
  unfolding paint shown get_peak_db_and_reset get_peak_amplitude_and_reset
  paint_lem m twenty ten floor old meter =
      let read = decibels m twenty floor meter.peak in
      let above = decibels-above m twenty floor meter.peak in
      (
        elim (Bool-cases (s.same read floor)) [
          | inl e ↦ rw e (greater_right (old ⊖ ten) floor)
          | inr e ↦ rw e above
        ],
        above,
        λ h. elim (Bool-cases (s.same read floor)) [
          | inl e ↦ absurd (apart read (ordered.same-le read floor e) h)
          | inr e ↦ rw e refl
        ],
        λ e. rw (Order.same_of ordered read floor e) refl,
        refl,
      )
    where
      apart : {floor : T} (read : T) → read ≡ floor → s.lt floor read ≡ true → ⊥
      apart {floor} read e h = ground (arith, Order.lt_irrefl ordered floor, ap (s.lt floor) e)

-- A peak of 1, full scale, whose decibels are 0, which is not a normal number, is read as the floor.
full_scale_read_as_floor {ℓ} :
    {T : Type ℓ} ⦃s : Scalar T⦄ ⦃ring : IsRing T⦄ (m : Measures T) (twenty floor : T)
    (meter : SimpleMeter T)
    → meter.peak ≡ s.unit
    → m.log10 s.unit ≡ s.nought
    → m.is_normal s.nought ≡ false
    → (get_peak_db_and_reset m twenty floor meter).0 ≡ floor
unfolding get_peak_db_and_reset get_peak_amplitude_and_reset decibels
full_scale_read_as_floor ⦃s⦄ m twenty floor meter full log zero_not_normal =
    rw (full, log, mul-nought twenty, zero_not_normal) (ground arith)
