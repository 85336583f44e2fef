-- ===== src/SimpleMeter/Peaks.antt =====
-- The peak with no other thread in between: what is read is the greatest peak processed since the last
-- reading.
use fbutils.Prelude.{
  ◌≡◌, refl, sym, ◌∙◌, ap, true, Bool-cases, ◌⊎◌, inl, inr, List, [], ◌∷◌, map, some, IsIn,
  IsIn-cons, suc,
}
use fbutils.Scalar.{Scalar, IsOrdered}
use fbutils.Scalar.Order
use fbutils.SimpleMeter.{
  SimpleMeter, Measures, current_peak, raise, process, get_peak_amplitude_and_reset,
}

module _ {ℓ} {T : Type ℓ} ⦃s : Scalar T⦄ where
  -- `process` for one buffer after the other
  unfoldable pub process_all : Measures T → List (List T) → SimpleMeter T → SimpleMeter T
  unfolding process
  process_all m [] meter = meter
  process_all m (buffer ∷ buffers) meter = process_all m buffers (process m buffer meter)

  -- The value is at least each of the list, and nought or one of it.
  abbrev pub IsPeakOf : T → List T → Type ℓ
  IsPeakOf peak currents =
      ((c : T) → IsIn c currents → s.le c peak ≡ true) × ((peak ≡ s.nought) ⊎ IsIn peak currents)

module _ {ℓ} {T : Type ℓ} ⦃s : Scalar T⦄ (ordered : IsOrdered T) where
  -- What `raise` leaves is the greater of the two, where both are not below nought.
  raise_lem :
      (current peak : T)
      → s.le s.nought current ≡ true
      → s.le s.nought peak ≡ true
      → (s.le current (raise current peak) ≡ true)
        × (s.le peak (raise current peak) ≡ true)
        × ((raise current peak ≡ current) ⊎ (raise current peak ≡ peak))
  unfolding raise
  raise_lem current peak c p = elim (Bool-cases (s.same peak s.nought)) [
    | inl e ↦ rw e (
      ordered.le_refl current,
      ap (λ z. s.le z current) (ordered.same-le peak s.nought e) ∙ c,
      inl refl,
    )
    | inr e ↦ elim (Bool-cases (s.lt peak current)) [
      | inl l ↦
          rw (e, l) (ordered.le_refl current, (Order.le_of_lt ordered peak current l).0, inl refl)
      | inr l ↦
          rw (e, l) (Order.le_of_not_lt ordered peak current l, ordered.le_refl peak, inr refl)
    ]
  ]

  process_all_lem :
      (m : Measures T) (buffers : List (List T)) (meter : SimpleMeter T)
      → ((buffer : List T) → s.le s.nought (current_peak m buffer) ≡ true)
      → s.le s.nought meter.peak ≡ true
      → (s.le meter.peak (process_all m buffers meter).peak ≡ true)
        × ((c : T)
            → IsIn c (map (current_peak m) buffers)
            → s.le c (process_all m buffers meter).peak ≡ true)
        × (((process_all m buffers meter).peak ≡ meter.peak)
            ⊎ IsIn (process_all m buffers meter).peak (map (current_peak m) buffers))
  unfolding process_all process
  process_all_lem m [] meter h p = (ordered.le_refl meter.peak, λ c (i, held). cc, inl refl)
  process_all_lem m (buffer ∷ buffers) meter h p =
      let c = current_peak m buffer in
      let (over_c, over_p, which) = raise_lem c meter.peak (h buffer) p in
      let (grows, covers, from) =
        process_all_lem m buffers (process m buffer meter) h
          (ordered.le_trans s.nought meter.peak (raise c meter.peak) p over_p) in
      let end = (process_all m buffers (process m buffer meter)).peak in
      (
        ordered.le_trans meter.peak (raise c meter.peak) end over_p grows,
        λ d m'. elim (IsIn-cons d c (map (current_peak m) buffers) m') [
          | inl e ↦
              ordered.le_trans d (raise c meter.peak) end
                (ap (λ z. s.le z (raise c meter.peak)) (sym e) ∙ over_c) grows
          | inr n ↦ covers d n
        ],
        elim from [
          | inr (i, held) ↦ inr (suc i, held)
          | inl e ↦ elim which [ inl f ↦ inr (0, ap some (sym (e ∙ f))) | inr f ↦ inl (e ∙ f) ]
        ],
      )

  -- Where no current peak is below nought: after a reading and any buffers that are processed then, the next
  -- reading is at least the current peak of each, and one of them, or nought if it exceeds none; it
  -- leaves nought.
  reading_lem :
      (m : Measures T) (buffers : List (List T)) (meter : SimpleMeter T)
      → ((buffer : List T) → s.le s.nought (current_peak m buffer) ≡ true)
      → let after = process_all m buffers (get_peak_amplitude_and_reset meter).1 in
        IsPeakOf (get_peak_amplitude_and_reset after).0 (map (current_peak m) buffers)
        × ((get_peak_amplitude_and_reset after).1.peak ≡ s.nought)
  unfolding get_peak_amplitude_and_reset
  reading_lem m buffers meter h =
      let start : SimpleMeter T = record meter { peak = s.nought } in
      let (grows, covers, from) = process_all_lem m buffers start h (ordered.le_refl s.nought) in
      ((covers, from), refl)
