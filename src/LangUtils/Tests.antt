-- ===== src/LangUtils/Tests.antt =====
-- A scope in a scope, in which an exception is thrown, and a copy.
use fbutils.Prelude.{◌≡◌, refl, false, [], ◌∷◌}
use fbutils.LangUtils.{enters, acts, nothing, throws, scope, run, destroy, copy_of}

thrown :
    run
      (scope (record { exit_scope = 1 }) (scope (record { exit_scope = 2 }) throws nothing) nothing)
    ≡ (false, enters 1 ∷ enters 2 ∷ acts 2 ∷ acts 1 ∷ [])
unfolding run destroy
thrown = refl

copied_twice : copy_of (copy_of (record { copied = 3 })).0 ≡ (record { copied = 3 }, acts 3 ∷ [])
unfolding copy_of
copied_twice = refl
