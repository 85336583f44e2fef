-- ===== src/Prelude/Updates.antt =====
-- Loops over an array that replace its elements one by one.
use Prim.Native.Nat.{ℕ, zero, suc, ◌+◌, ◌≤◌, ◌<◌}
use mathlib.Core.Logic.{◌⊎◌, inl, inr}
use mathlib.Core.Option.{some-injective}
use mathlib.Core.Path.{◌≡◌, refl, sym, ap, ◌∙◌}
use mathlib.Core.Option.{some}
use mathlib.Core.List.{List, [], ◌∷◌, ◌++◌}
use native.Mathlib.Omega.{arith}
use native.Mathlib.Decide.{ℕ_discrete}
use fbutils.Prelude.Lists.{
  length, get_elem?, set, length-set, get_elem?-set_self, get_elem?-set_ne, lt-length_of_get_elem?,
}
use fbutils.Prelude.Options.{◌>>=◌}

module _ {ℓ} {A : Type ℓ} where
  -- An index below the length has an element.
  pub get_below : (v : List A) (i : ℕ) → i < length v → (a : A) × (get_elem? v i ≡ some a)
  get_below [] i h = absurd (omega arith)
  get_below (x ∷ v) zero h = (x, refl)
  get_below (x ∷ v) (suc i) h = get_below v i (omega arith)

  -- What a loop leaves that puts `f i y` for the element `y` at each `i` from `u` to below `u + left`
  abbrev pub Updated : (ℕ → A → A) → ℕ → ℕ → List A → List A → Type ℓ
  Updated f left u ys w =
      (length w ≡ length ys)
      × ((i : ℕ) (y : A)
          → u ≤ i
          → i < u + left
          → get_elem? ys i ≡ some y
          → get_elem? w i ≡ some (f i y))
      × ((i : ℕ) → i < u → get_elem? w i ≡ get_elem? ys i)
      × ((i : ℕ) → u + left ≤ i → get_elem? w i ≡ get_elem? ys i)

  pub Updated-turn :
      (f : ℕ → A → A) (left u : ℕ) (ys w : List A) {y put : A}
      → get_elem? ys u ≡ some y
      → f u y ≡ put
      → Updated f left (u + 1) (set ys u put) w
      → Updated f (suc left) u ys w
  Updated-turn f left u ys w {y} {put} held result (len, inside, before, after) = (
    len ∙ length-set ys u put,
    λ i z from below got. elim (ℕ_discrete u i) [
      | yes q ↦
          ap (get_elem? w) (sym q)
          ∙ before u (omega arith)
          ∙ get_elem?-set_self ys u put (lt-length_of_get_elem? ys u held)
          ∙ ap some (sym result)
          ∙ ap (λ o. o >>= λ x. some (f u x)) (sym held ∙ ap (get_elem? ys) q ∙ got)
          ∙ ap (λ j. some (f j z)) q
      | no q ↦ inside i z (omega arith) (omega arith) (get_elem?-set_ne ys put q ∙ got)
    ],
    λ i below. before i (omega arith) ∙ get_elem?-set_ne ys put (omega arith),
    λ i above. after i (omega arith) ∙ get_elem?-set_ne ys put (omega arith),
  )

  -- An element of a list, by the place at which it stands
  abbrev pub IsIn : A → List A → Type ℓ
  IsIn a xs = (i : ℕ) × (get_elem? xs i ≡ some a)

  pub IsIn-cons : (a x : A) (xs : List A) → IsIn a (x ∷ xs) → (x ≡ a) ⊎ IsIn a xs
  IsIn-cons a x xs (zero, held) = inl (some-injective x a held)
  IsIn-cons a x xs (suc i, held) = inr (i, held)

  pub IsIn-append : (a : A) (xs ys : List A) → IsIn a (xs ++ ys) → IsIn a xs ⊎ IsIn a ys
  IsIn-append a [] ys held = inr held
  IsIn-append a (x ∷ xs) ys (zero, held) = inl (zero, held)
  IsIn-append a (x ∷ xs) ys (suc i, held) = elim (IsIn-append a xs ys (i, held)) [
    | inl (j, at_j) ↦ inl (suc j, at_j)
    | inr later ↦ inr later
  ]
