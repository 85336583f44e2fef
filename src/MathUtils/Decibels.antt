-- ===== src/MathUtils/Decibels.antt =====
-- `fast_dBSum0_2` and `fast_dBSum0_5`: sums of two levels in decibels, each a `uint8_t`. The coefficients,
-- the conversion to `float` and `fastRoundToInt` are parameters; an `int` is its 32 bits.
use fbutils.Prelude.{ℕ, ◌+◌, ◌%◌, ◌^◌, ltb, if◌then◌else◌}
use fbutils.Scalar.{Scalar, ◌⊕◌, ◌⊖◌, ◌⊗◌, ◌⊘◌}
use fbutils.Scalar.Trig.{Trig}

-- `std::max`
abbrev pub greater : ℕ → ℕ → ℕ
greater a b = if ltb a b then b else a

module _ {ℓ} {T : Type ℓ} ⦃s : Scalar T⦄ ⦃t : Trig T⦄ where
  -- `lDiff`
  unfoldable pub level_difference : (ℕ → T) → ℕ → ℕ → T
  level_difference of_nat a b = t.abs (of_nat a ⊖ of_nat b)

  -- `lDelta` of the two functions
  unfoldable pub delta0_2 : T → T → T → T → T
  delta0_2 a b c d = a ⊘ (b ⊕ d ⊗ (c ⊕ d))

  unfoldable pub delta0_5 : T → T → T → T → T → T → T → T
  delta0_5 a b c e f g d = a ⊘ (s.unit ⊕ d ⊗ (b ⊕ d ⊗ (c ⊕ d ⊗ (e ⊕ d ⊗ (s.neg f ⊕ g ⊗ d)))))

  -- The last line of both functions: the result is cut to 8 bits.
  unfoldable pub fast_db_sum : (ℕ → T) → (T → ℕ) → (T → T) → ℕ → ℕ → ℕ
  unfolding level_difference
  fast_db_sum of_nat round_to_int delta a b =
      (greater a b + round_to_int (delta (level_difference of_nat a b))) % 2 ^ 8

  unfoldable pub fast_db_sum0_2 : (ℕ → T) → (T → ℕ) → T → T → T → ℕ → ℕ → ℕ
  unfolding fast_db_sum delta0_2
  fast_db_sum0_2 of_nat round_to_int c0 c1 c2 = fast_db_sum of_nat round_to_int (delta0_2 c0 c1 c2)

  unfoldable pub fast_db_sum0_5 : (ℕ → T) → (T → ℕ) → T → T → T → T → T → T → ℕ → ℕ → ℕ
  unfolding fast_db_sum delta0_5
  fast_db_sum0_5 of_nat round_to_int c0 c1 c2 c3 c4 c5 =
      fast_db_sum of_nat round_to_int (delta0_5 c0 c1 c2 c3 c4 c5)
