-- ===== src/Denormals/Tests.antt =====
-- A scope in a scope, and the theorems there.
use fbutils.Prelude.{ℕ, ◌≡◌, refl, Bool, true, false, ◌||◌, ◌==◌, ◌++◌, IsIn}
use fbutils.Denormals.{
  Register, killed, enter, restore, leave, raise_flags, Code, nothing, compute, scope, run,
}
use fbutils.Denormals.Scopes.{IsKilled, Keeps, SameControls, scope_lem}

-- The exceptions masked, as a thread starts
abbrev usual : Register
usual i = i == 7 || i == 8 || i == 9 || i == 10 || i == 11 || i == 12

-- The flag of an inexact result
abbrev inexact : ℕ → Bool
inexact i = i == 5

-- A computation, and a scope that restores early and then computes
abbrev nested : Code
nested = compute inexact (scope (compute inexact nothing) true (compute inexact nothing) nothing)

-- Of two computations in a scope, the flag of the one behind the call of `restore` stays.
kept :
    ((run (scope (compute inexact nothing) true nothing nothing) usual).1 5 ≡ false)
    × ((run (scope nothing true (compute inexact nothing) nothing) usual).1 5 ≡ true)
unfolding run enter restore leave raise_flags killed
kept = (refl, refl)

scope_lem_example :
    let csr = usual in
    let rest = compute inexact nothing in
    let after = (run nested (killed csr)).1 in
    ((r : Register) → IsIn r (run nested (enter csr).1).0 → IsKilled csr r)
    × ((r : Register) → true ≡ false → IsIn r (run rest after).0 → IsKilled csr r)
    × ((r : Register) → true ≡ true → IsIn r (run rest csr).0 → Keeps csr r)
    × SameControls (run (scope nested true rest nothing) csr).1 csr
    × (true ≡ false
        → run (scope nested true rest nothing) csr ≡ (
          (run nested (enter csr).1).0 ++ ((run rest after).0 ++ (run nothing csr).0),
          (run nothing csr).1,
        ))
    × (true ≡ true
        → run (scope nested true rest nothing) csr ≡ (
          (run nested (enter csr).1).0 ++ ((run rest csr).0 ++ (run nothing (run rest csr).1).0),
          (run nothing (run rest csr).1).1,
        ))
scope_lem_example = scope_lem nested true (compute inexact nothing) nothing usual
