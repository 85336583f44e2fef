-- ===== src/MathUtils/Buffers.antt =====
-- include/fbu/math_utils.hpp: `boundsSafeGuard` and `manualFTZ`, loops over a buffer of samples, and
-- `CumulAverage`. `std::isfinite`, `std::isnormal` and the conversion of an `int` to a float are parameters.
use fbutils.Prelude.{
  ℕ, suc, zero, ◌+◌, ◌%◌, ◌^◌, ◌≤◌, ◌<◌, ◌≡◌, refl, sym, ap, arith, Bool, not, ◌==◌, Bool-cases,
  inl, inr, Option, none, some, List, [], ◌∷◌, get_elem?, set, length, length-set, get_below,
  Updated, Updated-turn, ◌>>=◌, if◌then◌else◌,
}
use fbutils.Scalar.{Scalar, ◌⊕◌, ◌⊘◌}

module _ {ℓ} {T : Type ℓ} ⦃s : Scalar T⦄ where
  -- The loops of both from `i` on, with the turns left; `none` is an access out of bounds.
  unfoldable pub clear_loop : (T → Bool) → ℕ → ℕ → List T → Option (List T)
  clear_loop keep zero i samples = some samples
  clear_loop keep (suc left) i samples = do
    x ← get_elem? samples i
    clear_loop keep left (i + 1) (if not (keep x) then set samples i s.nought else samples)

  unfoldable pub bounds_safe_guard : (T → Bool) → List T → ℕ → Option (List T)
  unfolding clear_loop
  bounds_safe_guard is_finite channel num_samples = clear_loop is_finite num_samples 0 channel

  unfoldable pub manual_ftz : (T → Bool) → List T → ℕ → Option (List T)
  unfolding clear_loop
  manual_ftz is_normal channel num_samples = clear_loop is_normal num_samples 0 channel

  -- What the loops make of one sample
  unfoldable pub cleared : (T → Bool) → T → T
  cleared keep x = if keep x then x else s.nought

  set_held : (xs : List T) (i : ℕ) {x : T} → get_elem? xs i ≡ some x → set xs i x ≡ xs
  set_held [] i h = refl
  set_held (y ∷ xs) zero {x} h = ap (λ o. elim o [ none ↦ y ∷ xs | some z ↦ z ∷ xs ]) (sym h)
  set_held (y ∷ xs) (suc i) h = ap (λ zs. y ∷ zs) (set_held xs i h)

  turn_sets :
      (keep : T → Bool) (samples : List T) (i : ℕ) {x : T}
      → get_elem? samples i ≡ some x
      → (if not (keep x) then set samples i s.nought else samples) ≡ set samples i (cleared keep x)
  unfolding cleared
  turn_sets keep samples i {x} held = elim (Bool-cases (keep x)) [
    | inl p ↦ rw p (sym (set_held samples i held))
    | inr p ↦ rw p
  ]

  clear_loop_lem :
      (keep : T → Bool) (left i : ℕ) (samples : List T)
      → i + left ≤ length samples
      → (w : List T) × (clear_loop keep left i samples ≡ some w)
        × Updated (λ j. cleared keep) left i samples w
  unfolding clear_loop
  clear_loop_lem keep zero i samples fits =
      (samples, refl, (refl, λ j y a b. absurd (omega arith), λ j a. refl, λ j a. refl))
  clear_loop_lem keep (suc left) i samples fits =
      let (x, held) = get_below samples i (omega arith) in
      let (w, run, parts) =
        clear_loop_lem keep left (i + 1) (set samples i (cleared keep x))
          (omega (arith, length-set samples i (cleared keep x))) in
      (
        w,
        rw (held, turn_sets keep samples i held) run,
        Updated-turn (λ j. cleared keep) left i samples w held refl parts,
      )

  -- Both loops end, for any number of samples that the buffer has, with no access out of bounds; each
  -- sample below that number is then the one before if it is finite (normal, for `manualFTZ`), and nought
  -- if not, and the others are as before.
  clear_lem :
      (keep : T → Bool) (channel : List T) (num_samples : ℕ)
      → num_samples ≤ length channel
      → (w : List T) × (bounds_safe_guard keep channel num_samples ≡ some w)
        × (manual_ftz keep channel num_samples ≡ some w)
        × (length w ≡ length channel)
        × ((i : ℕ) (x : T)
            → i < num_samples
            → get_elem? channel i ≡ some x
            → get_elem? w i ≡ some (if keep x then x else s.nought))
        × ((i : ℕ) → num_samples ≤ i → get_elem? w i ≡ get_elem? channel i)
  unfolding bounds_safe_guard manual_ftz cleared
  clear_lem keep channel num_samples fits =
      let (w, run, (len, inside, before, after)) =
        clear_loop_lem keep num_samples 0 channel (omega arith) in
      (
        w,
        run,
        run,
        len,
        λ i x below held. inside i x (omega arith) (omega arith) held,
        λ i above. after i (omega arith),
      )

-- `CumulAverage`: `mCumul` and the `int` `mCount`
pub record CumulAverage {ℓ} (T : Type ℓ) : Type ℓ where
  pub cumul : T
  pub count : ℕ

module _ {ℓ} {T : Type ℓ} ⦃s : Scalar T⦄ where
  abbrev pub no_average : CumulAverage T
  no_average = record { cumul = s.nought; count = 0 }

  unfoldable pub push : T → CumulAverage T → CumulAverage T
  push value a = record { cumul = a.cumul ⊕ value; count = (a.count + 1) % 2 ^ 32 }

  -- `get`, with the conversion of an `int` to a float
  unfoldable pub average : (ℕ → T) → CumulAverage T → T
  average to_float a = if not (a.count == 0) then a.cumul ⊘ to_float a.count else s.nought

  -- The values pushed one after the other
  unfoldable pub push_all : List T → CumulAverage T → CumulAverage T
  unfolding push
  push_all [] a = a
  push_all (x ∷ xs) a = push_all xs (push x a)

  -- The sum from left to right
  unfoldable pub sum_from : T → List T → T
  sum_from total [] = total
  sum_from total (x ∷ xs) = sum_from (total ⊕ x) xs

  push_all-sum :
      (xs : List T) (a : CumulAverage T)
      → a.count + length xs < 2 ^ 31
      → ((push_all xs a).cumul ≡ sum_from a.cumul xs)
        × ((push_all xs a).count ≡ a.count + length xs)
  unfolding push_all sum_from push
  push_all-sum [] a small = (refl, omega arith)
  push_all-sum (x ∷ xs) a small =
      let (total, number) = push_all-sum xs (push x a) (omega arith) in (total, omega arith)

  -- As long as the `int` does not overflow, the average of values pushed is their sum, taken from left to
  -- right, over their number, and nought if there are none.
  average_lem :
      (to_float : ℕ → T) (xs : List T)
      → length xs < 2 ^ 31
      → average to_float (push_all xs no_average)
        ≡ (if length xs == 0 then s.nought else sum_from s.nought xs ⊘ to_float (length xs))
  unfolding average
  average_lem to_float xs small =
      let (total, number) = push_all-sum xs no_average (omega arith) in
      rw (total, number) (ground arith)
