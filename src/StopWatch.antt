-- ===== src/StopWatch.antt =====
-- include/fbu/stopwatch.hpp: a watch that is started and stopped and prints the time between. The times of
-- `steady_clock`, the conversions of `duration` and the printing of numbers are parameters; a difference
-- of times is the 64 bits of its count.
pub mod Scoped
mod Tests
use fbutils.Prelude.{
  ℕ, ◌+◌, ◌-◌, ◌*◌, ◌%◌, ◌^◌, Bool, true, false, not, ◌==◌, List, [], ◌∷◌, ◌++◌, if◌then◌else◌,
}

abbrev pub Text : Type 0
Text = List ℕ

-- A ratio, as which a unit of time is given
pub record Ratio : Type 0 where
  pub num : ℕ
  pub den : ℕ

-- `default_timeunit`
abbrev pub seconds : Ratio
seconds = record { num = 1; den = 1 }

-- What `duration<T, TIMEUNIT>(lDiff).count()` is, and what it prints
pub record Chrono {ℓ} (T : Type ℓ) : Type ℓ where
  pub count : Ratio → ℕ → T
  pub print : T → Text

abbrev pub unknown : Text
unknown = 63 ∷ []

-- `timeunit`, whose last case falls through to the default: "ns", "us", "ms", "s" and "?"
unfoldable pub timeunit : Ratio → Text
timeunit unit =
    if unit.den == 1000000000
    then 110 ∷ 115 ∷ []
    else if unit.den == 1000000
    then 117 ∷ 115 ∷ []
    else if unit.den == 1000
    then 109 ∷ 115 ∷ []
    else if unit.den == 1
    then (if unit.num == 1 then 115 ∷ [] else unknown)
    else unknown

-- `StopWatch`
pub record StopWatch : Type 0 where
  pub name : Text
  pub started : ℕ
  pub stopped : ℕ

unfoldable pub new_watch : Text → StopWatch
new_watch name = record { name = name; started = 0; stopped = 0 }

unfoldable pub start : ℕ → StopWatch → StopWatch
start now w = record w { started = now }

unfoldable pub stop : ℕ → StopWatch → StopWatch
stop now w = record w { stopped = now }

unfoldable pub rename : Text → StopWatch → StopWatch
rename name w = record w { name = name }

unfoldable pub rename_and_start : Text → ℕ → StopWatch → StopWatch
unfolding rename start
rename_and_start name now w = start now (rename name w)

-- `lDiff`
unfoldable pub difference : StopWatch → ℕ
difference w = (w.stopped + (2 ^ 64 - w.started % 2 ^ 64)) % 2 ^ 64

unfoldable pub get_seconds {ℓ} : {T : Type ℓ} → Chrono T → StopWatch → T
unfolding difference
get_seconds c w = c.count seconds (difference w)

-- The name, a colon and a space, if there is a name
unfoldable pub heading : Text → Text
heading [] = []
heading (a ∷ s) = (a ∷ s) ++ 58 ∷ 32 ∷ []

-- What `display` prints, with a line feed at the end
unfoldable pub display {ℓ} : {T : Type ℓ} → Chrono T → Ratio → StopWatch → Text
unfolding heading difference timeunit
display c unit w =
    heading w.name ++ c.print (c.count unit (difference w)) ++ 32 ∷ timeunit unit ++ 10 ∷ []

-- `stopAndDisplay`: the watch afterwards, and what it prints
unfoldable pub stop_and_display {ℓ} :
    {T : Type ℓ} → Chrono T → Ratio → ℕ → StopWatch → StopWatch × Text
unfolding stop display
stop_and_display c unit now w = let stopped = stop now w in (stopped, display c unit stopped)

-- The constructor of `StopWatchStarted`
unfoldable pub new_started : Text → ℕ → StopWatch
unfolding new_watch start
new_started name now = start now (new_watch name)

-- The calls that the code in the scope of a watch makes, with the times of the clock
pub data Call : Type 0 where
  starts : ℕ → Call
  stops : ℕ → Call
  renames : Text → Call
  renames_and_starts : Text → ℕ → Call
  displays : Ratio → Call
  stops_and_displays : Ratio → ℕ → Call

unfoldable pub call {ℓ} : {T : Type ℓ} → Chrono T → Call → StopWatch → StopWatch × Text
unfolding start stop rename rename_and_start display stop_and_display
call c (starts now) w = (start now w, [])
call c (stops now) w = (stop now w, [])
call c (renames name) w = (rename name w, [])
call c (renames_and_starts name now) w = (rename_and_start name now w, [])
call c (displays unit) w = (w, display c unit w)
call c (stops_and_displays unit now) w = stop_and_display c unit now w

-- The calls one after the other
unfoldable pub calls {ℓ} : {T : Type ℓ} → Chrono T → List Call → StopWatch → StopWatch × Text
unfolding call
calls c [] w = (w, [])
calls c (a ∷ rest) w =
    let (next, printed) = call c a w in
    let (left, more) = calls c rest next in (left, printed ++ more)

-- What a scope of a `StopWatchScoped` prints, with the destructor at its end
unfoldable pub scoped {ℓ} : {T : Type ℓ} → Chrono T → Text → ℕ → List Call → ℕ → Text
unfolding new_started calls stop_and_display
scoped c name now body ended =
    let (left, printed) = calls c body (new_started name now) in
    let (after, last) = stop_and_display c seconds ended left in printed ++ last
