-- ===== src/Denormals.antt =====
-- include/fbu/denormals.hpp, in a build that uses `_mm_getcsr` and `_mm_setcsr`: the scopes that turn off
-- the arithmetic of denormal numbers. The control register of a thread is the function from the number of
-- a bit to the bit. The builds with `fegetenv` save and restore in the same way.
pub mod Scopes
mod Tests
use fbutils.Prelude.{
  ℕ, Bool, true, false, ltb, ◌&&◌, ◌||◌, ◌==◌, List, [], ◌∷◌, ◌++◌, if◌then◌else◌,
}

abbrev pub Register : Type 0
Register = ℕ → Bool

-- `ScopedDenormalKiller`
pub record ScopedDenormalKiller : Type 0 where
  pub save : Register
  pub already_restored : Bool

-- `csr | (1 << 15) | (1 << 6)`
unfoldable pub killed : Register → Register
killed csr i = csr i || i == 15 || i == 6

-- The constructor: the object, and the register that it sets
unfoldable pub enter : Register → ScopedDenormalKiller × Register
unfolding killed
enter csr = (record { save = csr; already_restored = false }, killed csr)

unfoldable pub restore : ScopedDenormalKiller → Register → ScopedDenormalKiller × Register
restore k csr =
    if k.already_restored then (k, csr) else (record k { already_restored = true }, k.save)

-- The destructor
unfoldable pub leave : ScopedDenormalKiller → Register → Register
unfolding restore
leave k csr = (restore k csr).1

-- A computation may raise the flags of the exceptions, the bits 0 to 5, which stay.
unfoldable pub raise_flags : (ℕ → Bool) → Register → Register
raise_flags flags csr i = csr i || (ltb i 6 && flags i)

-- Code with scopes of such objects: a computation with the flags that it raises; or a scope, in which some
-- code runs, then `restore` is called or not, then the rest of the scope runs; and then more code
pub data Code : Type 0 where
  nothing : Code
  compute : (ℕ → Bool) → Code → Code
  scope : (inner : Code) (early : Bool) (rest next : Code) → Code

-- The registers under which the computations run, and the one that the code leaves
unfoldable pub run : Code → Register → List Register × Register
unfolding enter restore leave raise_flags
run nothing csr = ([], csr)
run (compute flags next) csr =
    let (seen, left) = run next (raise_flags flags csr) in (csr ∷ seen, left)
run (scope inner early rest next) csr =
    let (k, on) = enter csr in
    let (seen, after) = run inner on in
    let (k', still) = if early then restore k after else (k, after) in
    let (seen_rest, ended) = run rest still in
    let (seen_next, left) = run next (leave k' ended) in (seen ++ (seen_rest ++ seen_next), left)
