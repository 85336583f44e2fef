-- ===== src/SimpleMeter/Tests.antt =====
-- A meter whose samples are bits, and the theorems at its states.
use fbutils.Prelude.{
  ℕ, ◌+◌, ◌-◌, ◌*◌, ◌/◌, ◌≡◌, refl, Bool, true, false, ltb, leb, ◌==◌, List, [], ◌∷◌, arith,
}
use fbutils.Scalar.{Scalar, IsOrdered}
use fbutils.Scalar.Instances.{bit_scalar, bit-IsOrdered}
use fbutils.SimpleMeter.{
  SimpleMeter, Measures, current_peak, greater, decibels, shown, paint, bar_height,
  get_peak_amplitude_and_reset, get_peak_db_and_reset,
}
use fbutils.SimpleMeter.Peaks.{process_all}
use fbutils.SimpleMeter.Component.{
  set_fill_type, fill_rounded_rectangle, set_low_quality, picture, draw, paint_times, IsStep,
  silence_fades,
}
use fbutils.SimpleMeter.System.{System, idle, set_first, reading, Reach, start, later}
use fbutils.SimpleMeter.System.Readings.{Kept, no_peak_lost}

abbrev any : List Bool → Bool
any [] = false
any (true ∷ xs) = true
any (false ∷ xs) = any xs

abbrev measures : Measures Bool
measures = record {
  find_min_and_max = λ buffer. (false, any buffer);
  log10 = λ a. false;
  pow4 = λ a. a;
  is_normal = λ a. a;
}

abbrev loud : List Bool
loud = false ∷ true ∷ []

abbrev meter : SimpleMeter Bool
meter = record { peak = true; name = [] }

loud_is_read : (get_peak_amplitude_and_reset (process_all measures (loud ∷ [] ∷ []) meter)).0 ≡ true
unfolding get_peak_amplitude_and_reset process_all current_peak
loud_is_read = refl

not_below : (buffer : List Bool) → bit_scalar.le false (current_peak measures buffer) ≡ true
not_below buffer = refl

-- A peak is set, and read while the next call of `process` is under way.
abbrev run : System Bool
run = record { peak = false; pc = idle; readings = true ∷ []; processed = (true, 0) ∷ [] }

run-Reach : Reach measures run
unfolding current_peak greater
run-Reach = later (later start (set_first loud refl refl)) reading

no_peak_lost_example : Kept true 0 false (true ∷ [])
no_peak_lost_example = no_peak_lost bit-IsOrdered measures not_below run-Reach true 0 (0, refl)

-- Decibels from -144 on, as whole numbers
abbrev from_floor : Scalar ℕ
from_floor = record {
  nought = 0;
  unit = 1;
  add = λ a b. a + b;
  sub = λ a b. a - b;
  mul = λ a b. a * b;
  div = λ a b. a / b;
  neg = λ a. a;
  lt = ltb;
  le = leb;
  same = λ a b. a == b;
}

from_floor-IsOrdered : IsOrdered ℕ ⦃s = from_floor⦄
from_floor-IsOrdered = record {
  le_refl = λ a. ground arith;
  le_trans = λ a b c p q. ground arith;
  le_antisymm = λ a b p q. ground arith;
  le_total = λ a b. ground arith;
  lt-not-le = λ a b. ground arith;
  same-le = λ a b p. ground arith;
  same_refl = λ a. ground arith;
}

ten-IsStep : IsStep ⦃s = from_floor⦄ 10
ten-IsStep = record { rises = λ a. ground arith; falls = λ a b p. ground arith }

abbrev whole : Measures ℕ
whole = record {
  find_min_and_max = λ buffer. (0, 0);
  log10 = λ a. a;
  pow4 = λ a. a;
  is_normal = λ a. ltb 0 a;
}

abbrev silent : SimpleMeter ℕ
silent = record { peak = 0; name = [] }

-- A bar of full height falls in 15 calls of `paint`.
silence_fades_example :
    ((paint_times ⦃s = from_floor⦄ whole 20 10 0 15 144 silent).0 ≡ 0)
    × ((paint_times ⦃s = from_floor⦄ whole 20 10 0 15 144 silent).1.peak ≡ 0)
silence_fades_example =
    silence_fades ⦃s = from_floor⦄ from_floor-IsOrdered whole 20 10 0 15 144 silent ten-IsStep refl
      refl refl refl

full_picture : draw measures (λ n. ltb 0 n) true false false 1 2 5 144 true meter ≡ (
  (true, record { peak = false; name = [] }),
  set_fill_type 1
      ∷ fill_rounded_rectangle false false true true true
      ∷ set_low_quality
      ∷ set_fill_type 2
      ∷ fill_rounded_rectangle false false true true true
      ∷ [],
)
unfolding draw paint get_peak_db_and_reset get_peak_amplitude_and_reset decibels shown picture
    bar_height
full_picture = refl
