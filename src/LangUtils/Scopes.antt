-- ===== src/LangUtils/Scopes.antt =====
-- When the actions of scopes run.
use mathlib.Core.Path.{subst}
use mathlib.Core.List.{append-nil}
use fbutils.Prelude.{ℕ, Bool-cases, inl, inr, List, [], ◌∷◌, ◌++◌}
use fbutils.LangUtils.{Event, enters, acts, destroy, Code, nothing, throws, scope, run}

-- Events in which each scope entered runs its action once, behind the actions of the scopes in it and before
-- any later scope is entered
pub data Nested : List Event → Type 0 where
  empty : Nested []
  closed :
      (n : ℕ) {inside later : List Event}
      → Nested inside
      → Nested later
      → Nested ((enters n ∷ (inside ++ acts n ∷ [])) ++ later)

-- Whether the code ends or throws, at any depth of scopes: every scope that was entered has run its action
-- exactly once, the innermost first.
pub run-Nested : (code : Code) → Nested (run code).1
unfolding run destroy
run-Nested nothing = empty
run-Nested throws = empty
run-Nested (scope e inner next) = elim (Bool-cases (run inner).0) [
  | inl p ↦ rw p (closed e.exit_scope (run-Nested inner) (run-Nested next))
  | inr p ↦ rw p (
      subst Nested (append-nil (enters e.exit_scope ∷ ((run inner).1 ++ destroy e)))
        (closed e.exit_scope (run-Nested inner) empty))
]
