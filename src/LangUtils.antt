-- ===== src/LangUtils.antt =====
-- include/fbu/lang_utils.hpp: actions at the end of a scope, and when an object is copied. An action is its
-- number, and what is run is the list of what happens.
pub mod Scopes
mod Tests
use fbutils.Prelude.{ℕ, Bool, true, false, List, [], ◌∷◌, ◌++◌, if◌then◌else◌}

pub data Event : Type 0 where
  enters : ℕ → Event
  acts : ℕ → Event

-- `ScopeExit`, which is neither copied nor moved
pub record ScopeExit : Type 0 where
  pub exit_scope : ℕ

-- The destructor
unfoldable pub destroy : ScopeExit → List Event
destroy e = acts e.exit_scope ∷ []

-- Code with scopes that hold such an object: it ends, throws, or runs a scope and goes on
pub data Code : Type 0 where
  nothing : Code
  throws : Code
  scope : ScopeExit → Code → Code → Code

-- Whether the code ends without an exception, and what happens
unfoldable pub run : Code → Bool × List Event
unfolding destroy
run nothing = (true, [])
run throws = (false, [])
run (scope e inner next) =
    let (ended, events) = run inner in
    let (ended', events') = run next in
    let closed = enters e.exit_scope ∷ (events ++ destroy e) in
    if ended then (ended', closed ++ events') else (false, closed)

-- `OnCopy`
pub record OnCopy : Type 0 where
  pub copied : ℕ

-- The constructor from another one: the copy, and what happens
unfoldable pub copy_of : OnCopy → OnCopy × List Event
copy_of other = (record { copied = other.copied }, acts other.copied ∷ [])
