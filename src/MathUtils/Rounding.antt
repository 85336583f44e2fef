-- ===== src/MathUtils/Rounding.antt =====
-- `fastRoundToInt`, which adds 1.5 * 2 ^ 52 and reads a half of the bits of the sum. The bits of a `double`
-- are a parameter, and so is whether `__LITTLE_ENDIAN__` is defined; the machine has the lower half first.
use fbutils.Prelude.{
  ℕ, ◌+◌, ◌-◌, ◌*◌, ◌/◌, ◌%◌, ◌^◌, ◌<◌, ◌≡◌, Bool, true, false, arith, if◌then◌else◌,
}
use fbutils.Scalar.{Scalar, ◌⊕◌}

module _ {ℓ} {T : Type ℓ} ⦃s : Scalar T⦄ where
  -- The 32 bits of the `int`, for 6755399441055744
  unfoldable pub fast_round_to_int : Bool → (T → ℕ) → T → T → ℕ
  fast_round_to_int little_endian bits_of magic val =
      let bits = bits_of (val ⊕ magic) in if little_endian then bits % 2 ^ 32 else bits / 2 ^ 32

  -- A `double` from 2 ^ 52 to 2 ^ 53 is a whole number, and its bits are those of its exponent and of what it
  -- is more than 2 ^ 52. For `n` below 2 ^ 31: where the bits of the sum are those of `n` more than
  -- 1.5 * 2 ^ 52, or of `n + 1` less, `fastRoundToInt` is `n`, or the opposite of `n + 1`, as 32 bits, if
  -- `__LITTLE_ENDIAN__` is defined; if not, it is one of two values for all `n`.
  fast_round_to_int_lem :
      (bits_of : T → ℕ) (magic val : T) (n : ℕ) (below : Bool)
      → n < 2 ^ 31
      → bits_of (val ⊕ magic) ≡ 1075 * 2 ^ 52 + (if below then 2 ^ 51 - (n + 1) else 2 ^ 51 + n)
      → (fast_round_to_int true bits_of magic val ≡ (if below then 2 ^ 32 - (n + 1) else n))
        × (fast_round_to_int false bits_of magic val ≡ (if below then 1127743487 else 1127743488))
  unfolding fast_round_to_int
  fast_round_to_int_lem bits_of magic val n true small e = (omega (arith, e), omega (arith, e))
  fast_round_to_int_lem bits_of magic val n false small e = (omega (arith, e), omega (arith, e))
