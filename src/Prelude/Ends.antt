-- ===== src/Prelude/Ends.antt =====
-- Lists that grow and shrink at their ends, and loops with a counter.
use Prim.Native.Nat.{ℕ, zero, suc, ◌≤◌, ◌<◌}
use mathlib.Core.Option.{Option, none, some}
use mathlib.Core.Path.{◌≡◌, refl, ap}
use mathlib.Core.List.{List, [], ◌∷◌, ◌++◌}
use native.Mathlib.Omega.{arith}
use fbutils.Prelude.Lists.{length, get_elem?, take, length-append}

module _ {ℓ} {A : Type ℓ} where
  abbrev pub or_else : Option A → A → A
  or_else none a = a
  or_else (some b) a = b

  -- The elements of a list, and those that `new` gives from its end on.
  pub or_else-push :
      (new : ℕ → A) (xs : List A) (i : ℕ)
      → or_else (get_elem? (xs ++ new (length xs) ∷ []) i) (new i)
        ≡ or_else (get_elem? xs i) (new i)
  or_else-push new [] zero = refl
  or_else-push new [] (suc i) = refl
  or_else-push new (x ∷ xs) zero = refl
  or_else-push new (x ∷ xs) (suc i) = or_else-push (λ j. new (suc j)) xs i

  pub length-push : (xs : List A) (a : A) → length (xs ++ a ∷ []) ≡ suc (length xs)
  length-push xs a = omega (arith, length-append xs (a ∷ []))

  pub get_elem?-or_else :
      (xs : List A) (i : ℕ) (a : A)
      → i < length xs
      → get_elem? xs i ≡ some (or_else (get_elem? xs i) a)
  get_elem?-or_else [] i a h = absurd (omega arith)
  get_elem?-or_else (x ∷ xs) zero a h = refl
  get_elem?-or_else (x ∷ xs) (suc i) a h = get_elem?-or_else xs i a (omega arith)

  pub length-take : (n : ℕ) (xs : List A) → n ≤ length xs → length (take n xs) ≡ n
  length-take zero xs h = refl
  length-take (suc n) [] h = absurd (omega arith)
  length-take (suc n) (x ∷ xs) h = ap suc (length-take n xs (omega arith))

  pub get_elem?-take : (n i : ℕ) (xs : List A) → i < n → get_elem? (take n xs) i ≡ get_elem? xs i
  get_elem?-take zero i xs h = absurd (omega arith)
  get_elem?-take (suc n) i [] h = refl
  get_elem?-take (suc n) zero (x ∷ xs) h = refl
  get_elem?-take (suc n) (suc i) (x ∷ xs) h = get_elem?-take n i xs (omega arith)
