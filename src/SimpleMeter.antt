-- ===== src/SimpleMeter.antt =====
-- include/fbu/simple_meter.hpp and include/fbu/simple_meter.cpp: a peak that an audio thread raises and that
-- the user interface reads and resets, and the display of it.
--
-- The methods come as one call with nothing in between here; System.antt has the atomic accesses of
-- `process` one by one. What JUCE does (`FloatVectorOperations::findMinAndMax`, the drawing) and what
-- `std::log10`, `std::pow` and `std::isnormal` compute are parameters.
pub mod Peaks
pub mod Display
pub mod Component
pub mod System
mod Tests
use fbutils.Prelude.{ℕ, Bool, not, ◌||◌, List, if◌then◌else◌}
use fbutils.Scalar.{Scalar, ◌⊕◌, ◌⊖◌, ◌⊗◌, ◌⊘◌}

-- `SimpleMeter`: `mPeak` and `mName`
pub record SimpleMeter {ℓ} (T : Type ℓ) : Type ℓ where
  pub peak : T
  pub name : List ℕ

-- What the methods call: the least and the greatest sample of a buffer, and functions of `<cmath>`
pub record Measures {ℓ} (T : Type ℓ) : Type ℓ where
  pub find_min_and_max : List T → T × T
  pub log10 : T → T
  pub pow4 : T → T
  pub is_normal : T → Bool

module _ {ℓ} {T : Type ℓ} ⦃s : Scalar T⦄ where
  unfoldable pub new_meter : List ℕ → SimpleMeter T
  new_meter name = record { peak = s.nought; name = name }

  -- `std::max(a, b)`
  unfoldable pub greater : T → T → T
  greater a b = if s.lt a b then b else a

  -- `lCurrentPeak`
  unfoldable pub current_peak : Measures T → List T → T
  unfolding greater
  current_peak m buffer =
      let (least, greatest) = m.find_min_and_max buffer in greater (s.neg least) greatest

  -- What `process` does with `mPeak`, if no other thread comes between
  unfoldable pub raise : T → T → T
  raise current peak =
      if s.same peak s.nought then current else if s.lt peak current then current else peak

  unfoldable pub process : Measures T → List T → SimpleMeter T → SimpleMeter T
  unfolding raise current_peak
  process m buffer meter = record meter { peak = raise (current_peak m buffer) meter.peak }

  unfoldable pub get_peak_amplitude_and_reset : SimpleMeter T → T × SimpleMeter T
  get_peak_amplitude_and_reset meter = (meter.peak, record meter { peak = s.nought })

  unfoldable pub set_name : List ℕ → SimpleMeter T → SimpleMeter T
  set_name name meter = record meter { name = name }

  -- The decibels of an amplitude, for the constants 20 and -144
  unfoldable pub decibels : Measures T → T → T → T → T
  decibels m twenty floor peak =
      let peak_db = twenty ⊗ m.log10 peak in
      if s.lt peak_db floor || not (m.is_normal peak_db) then floor else peak_db

  unfoldable pub get_peak_db_and_reset : Measures T → T → T → SimpleMeter T → T × SimpleMeter T
  unfolding decibels get_peak_amplitude_and_reset
  get_peak_db_and_reset m twenty floor meter =
      let (peak, left) = get_peak_amplitude_and_reset meter in (decibels m twenty floor peak, left)

  -- The part of `paint` that works out the decibels shown: the ones shown before, and those read now. The
  -- constants are 10 and -144.
  unfoldable pub shown : T → T → T → T → T
  unfolding greater
  shown ten floor old read = if s.same read floor then greater (old ⊖ ten) floor else read

  -- `lHeight`, the height of the bar in a component of the given height
  unfoldable pub bar_height : Measures T → T → T → T → T
  bar_height m floor height peak_db = m.pow4 ((peak_db ⊖ floor) ⊘ s.neg floor) ⊗ height

  -- `paint`: the decibels shown then, and the meter
  unfoldable pub paint : Measures T → T → T → T → T → SimpleMeter T → T × SimpleMeter T
  unfolding get_peak_db_and_reset shown
  paint m twenty ten floor old meter =
      let (read, left) = get_peak_db_and_reset m twenty floor meter in
      (shown ten floor old read, left)
