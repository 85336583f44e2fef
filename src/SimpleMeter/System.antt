-- ===== src/SimpleMeter/System.antt =====
-- include/fbu/simple_meter.cpp: `SimpleMeter::process` on an audio thread, one access to `mPeak` after
-- the other, between which any thread may call `getPeakAmplitudeAndReset`. Each access is atomic.
pub mod Readings
use fbutils.Prelude.{ℕ, ◌≡◌, Bool, true, false, if◌then◌else◌, List, [], ◌∷◌, length, ◌++◌}
use fbutils.Scalar.{Scalar}
use fbutils.SimpleMeter.{Measures, current_peak}

-- Where the audio thread stands: between two calls; behind the `compareAndSetBool` that found a peak that is
-- not nought; behind `get`, with the previous peak. The number is that of the readings when the call began.
pub data Pc {ℓ} (T : Type ℓ) : Type ℓ where
  idle : Pc T
  compared : T → ℕ → Pc T
  got : T → ℕ → T → Pc T

-- `mPeak`, the audio thread, and what has happened: the readings, from the first to the last, and the current
-- peaks of the calls of `process` that have ended, with the number of readings when each began.
pub record System {ℓ} (T : Type ℓ) : Type ℓ where
  pub peak : T
  pub pc : Pc T
  pub readings : List T
  pub processed : List (T × ℕ)

module _ {ℓ} {T : Type ℓ} ⦃s : Scalar T⦄ where
  abbrev pub init : System T
  init = record { peak = s.nought; pc = idle; readings = []; processed = [] }

  pub data Step (m : Measures T) (y : System T) : System T → Type ℓ where
    -- `compareAndSetBool(lCurrentPeak, 0.f)`
    set_first :
        (buffer : List T)
        → y.pc ≡ idle
        → s.same y.peak s.nought ≡ true
        → Step m y (record y {
          peak = current_peak m buffer;
          processed = (current_peak m buffer, length y.readings) ∷ y.processed;
        })
    set_not :
        (buffer : List T)
        → y.pc ≡ idle
        → s.same y.peak s.nought ≡ false
        → Step m y (record y { pc = compared (current_peak m buffer) (length y.readings) })
    -- `get`
    get : {c : T} {n : ℕ} → y.pc ≡ compared c n → Step m y (record y { pc = got c n y.peak })
    -- the comparison with the previous peak, and `set`
    end :
        {c prev : T} {n : ℕ}
        → y.pc ≡ got c n prev
        → Step m y (record y {
          peak = (if s.lt prev c then c else y.peak);
          pc = idle;
          processed = (c, n) ∷ y.processed;
        })
    -- `getPeakAmplitudeAndReset` on another thread
    reading : Step m y (record y { peak = s.nought; readings = y.readings ++ y.peak ∷ [] })

  pub data Reach (m : Measures T) : System T → Type ℓ where
    start : Reach m init
    later : {y z : System T} → Reach m y → Step m y z → Reach m z
