-- ===== src/StopWatch/Tests.antt =====
-- A watch that prints its time as so many strokes, and the theorem there.
use fbutils.Prelude.{ℕ, zero, suc, ◌≡◌, refl, arith, List, [], ◌∷◌, ◌++◌}
use fbutils.StopWatch.{
  Chrono, timeunit, heading, new_started, Call, starts, renames, displays, calls, scoped, start,
  rename, display, difference, new_watch, call,
}
use fbutils.StopWatch.Scoped.{last_name, last_start, scoped_lem}

abbrev strokes : Chrono ℕ
strokes = record { count = λ unit d. d; print = λ n. elim n [ zero ↦ 48 ∷ [] | suc m ↦ 124 ∷ [] ] }

abbrev body : List Call
body = displays (record { num = 1; den = 1000 }) ∷ renames (97 ∷ []) ∷ starts 7 ∷ []

prints : (calls strokes body (new_started [] 5)).1 ≡ 124 ∷ 32 ∷ 109 ∷ 115 ∷ 10 ∷ []
unfolding calls call new_started new_watch start rename display timeunit difference heading
prints = refl

scoped_lem_example :
    scoped strokes [] 5 body 9
    ≡ (calls strokes body (new_started [] 5)).1
      ++ (97 ∷ 58 ∷ 32 ∷ [] ++ strokes.print 2 ++ 32 ∷ (115 ∷ []) ++ 10 ∷ [])
unfolding last_name last_start heading
scoped_lem_example = scoped_lem strokes [] 5 body 9 (omega arith) (omega arith)
