-- ===== src/Prelude/Counting.antt =====
-- Weights summed over the members of a list: how many threads stand at a program point.
use Prim.Native.Nat.{ℕ, zero, suc, ◌+◌, ◌≤◌, ◌<◌}
use mathlib.Core.Path.{◌≡◌, refl}
use mathlib.Core.Logic.{◌≢◌}
use mathlib.Core.List.{List, [], ◌∷◌, ◌++◌, map}
use mathlib.Core.Option.{some}
use native.Mathlib.Omega.{arith}
use fbutils.Prelude.Lists.{length, get_elem?, set, replicate}

module _ {ℓ} {A : Type ℓ} where
  abbrev pub weigh : (A → ℕ) → List A → ℕ
  weigh w [] = 0
  weigh w (x ∷ xs) = w x + weigh w xs

module _ {ℓ} {A : Type ℓ} (w : A → ℕ) where
  -- A member that changes takes its old weight out and puts its new weight in.
  pub weigh-set :
      (xs : List A) (i : ℕ) (v : A) {u : A}
      → get_elem? xs i ≡ some u
      → weigh w (set xs i v) + w u ≡ weigh w xs + w v
  weigh-set [] i v h = cc
  weigh-set (x ∷ xs) zero v h = ground arith
  weigh-set (x ∷ xs) (suc i) v h = omega (arith, weigh-set xs i v h)

  -- One member weighs at most what all do.
  pub le-weigh : (xs : List A) (i : ℕ) {u : A} → get_elem? xs i ≡ some u → w u ≤ weigh w xs
  le-weigh [] i h = cc
  le-weigh (x ∷ xs) zero h = ground arith
  le-weigh (x ∷ xs) (suc i) h = omega (arith, le-weigh xs i h)

  -- So do two members at different places together.
  pub add-le-weigh :
      (xs : List A) (i j : ℕ) {u v : A}
      → i ≢ j
      → get_elem? xs i ≡ some u
      → get_elem? xs j ≡ some v
      → w u + w v ≤ weigh w xs
  add-le-weigh [] i j n h k = cc
  add-le-weigh (x ∷ xs) zero zero n h k = absurd (n refl)
  add-le-weigh (x ∷ xs) zero (suc j) n h k = ground (arith, le-weigh xs j k)
  add-le-weigh (x ∷ xs) (suc i) zero n h k = ground (arith, le-weigh xs i h)
  add-le-weigh (x ∷ xs) (suc i) (suc j) n h k =
      omega (arith, add-le-weigh xs i j (λ e. n (omega arith)) h k)

  -- Weight comes from some member.
  pub weigh_pos :
      (xs : List A) → 0 < weigh w xs → (i : ℕ) × (u : A) × (get_elem? xs i ≡ some u) × (0 < w u)
  weigh_pos [] h = absurd (omega arith)
  weigh_pos (x ∷ xs) h = elim (dec_pos (w x)) [
    | yes p ↦ (0, x, refl, p)
    | no p ↦ let (i, u, e, q) = weigh_pos xs (omega arith) in (suc i, u, e, q)
  ]
    where
      dec_pos : (n : ℕ) → Dec (0 < n)
      dec_pos zero = no (λ h. omega arith)
      dec_pos (suc n) = yes (omega arith)

  pub weigh-replicate : (n : ℕ) (a : A) → w a ≡ 0 → weigh w (replicate n a) ≡ 0
  weigh-replicate zero a h = refl
  weigh-replicate (suc n) a h = omega (arith, weigh-replicate n a h)

  pub weigh-append : (xs ys : List A) → weigh w (xs ++ ys) ≡ weigh w xs + weigh w ys
  weigh-append [] ys = omega arith
  weigh-append (x ∷ xs) ys = omega (arith, weigh-append xs ys)

  pub weigh-map :
      (v : A → ℕ) (f : A → A)
      → ((a : A) → w (f a) ≡ v a)
      → (xs : List A) → weigh w (map f xs) ≡ weigh v xs
  weigh-map v f h [] = refl
  weigh-map v f h (x ∷ xs) = omega (arith, h x, weigh-map v f h xs)

  pub weigh_le-length : ((a : A) → w a ≤ 1) → (xs : List A) → weigh w xs ≤ length xs
  weigh_le-length h [] = omega arith
  weigh_le-length h (x ∷ xs) = omega (arith, h x, weigh_le-length h xs)
