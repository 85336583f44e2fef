-- ===== src/StopWatch/Scoped.antt =====
-- What a `StopWatchScoped` prints when its scope ends.
use fbutils.Prelude.{ℕ, ◌-◌, ◌^◌, ◌≤◌, ◌<◌, ◌≡◌, refl, ap, ◌∙◌, List, [], ◌∷◌, ◌++◌, arith}
use fbutils.StopWatch.{
  Text, seconds, Chrono, timeunit, StopWatch, new_watch, start, stop, rename, rename_and_start,
  difference, heading, display, stop_and_display, new_started, Call, starts, stops, renames,
  renames_and_starts, displays, stops_and_displays, call, calls, scoped,
}

-- The last name that the calls give, and the last time at which they start the watch
unfoldable pub last_name : Text → List Call → Text
last_name name [] = name
last_name name (renames other ∷ rest) = last_name other rest
last_name name (renames_and_starts other now ∷ rest) = last_name other rest
last_name name (a ∷ rest) = last_name name rest

unfoldable pub last_start : ℕ → List Call → ℕ
last_start started [] = started
last_start started (starts now ∷ rest) = last_start now rest
last_start started (renames_and_starts other now ∷ rest) = last_start now rest
last_start started (a ∷ rest) = last_start started rest

module _ {ℓ} {T : Type ℓ} (c : Chrono T) where
  calls-last :
      (body : List Call) (w : StopWatch)
      → ((calls c body w).0.name ≡ last_name w.name body)
        × ((calls c body w).0.started ≡ last_start w.started body)
  unfolding calls call start stop rename rename_and_start display stop_and_display last_name
      last_start
  calls-last [] w = (refl, refl)
  calls-last (starts now ∷ rest) w = calls-last rest (start now w)
  calls-last (stops now ∷ rest) w = calls-last rest (stop now w)
  calls-last (renames name ∷ rest) w = calls-last rest (rename name w)
  calls-last (renames_and_starts name now ∷ rest) w = calls-last rest (rename_and_start name now w)
  calls-last (displays unit ∷ rest) w = calls-last rest w
  calls-last (stops_and_displays unit now ∷ rest) w = calls-last rest (stop now w)

  difference-stop :
      (now : ℕ) (w : StopWatch)
      → w.started ≤ now
      → now < 2 ^ 63
      → difference (stop now w) ≡ now - w.started
  unfolding difference stop
  difference-stop now w before small = omega arith

  -- The scope prints what the calls in it print, and then the last name that the watch had, with a colon,
  -- unless it is empty, and the seconds from the last time at which it was started to the end of the
  -- scope, whatever the calls were; provided that this start is not behind the end, which is below 2 ^ 63.
  pub scoped_lem :
      (name : Text) (now : ℕ) (body : List Call) (ended : ℕ)
      → last_start now body ≤ ended
      → ended < 2 ^ 63
      → scoped c name now body ended
        ≡ (calls c body (new_started name now)).1
          ++ (heading (last_name name body)
              ++ c.print (c.count seconds (ended - last_start now body))
              ++ 32 ∷ (115 ∷ [])
              ++ 10 ∷ [])
  unfolding scoped stop_and_display display timeunit new_started new_watch start stop
  scoped_lem name now body ended before small =
      let (left, printed) = calls c body (new_started name now) in
      let (named, begun) = calls-last body (new_started name now) in
      let line : Text → ℕ → Text = λ n d.
        printed ++ (heading n ++ c.print (c.count seconds d) ++ 32 ∷ (115 ∷ []) ++ 10 ∷ []) in
      ap (λ n. line n (difference (stop ended left))) named
      ∙ ap (line (last_name name body))
          (difference-stop ended left (omega (arith, begun)) small ∙ ap (λ t. ended - t) begun)
