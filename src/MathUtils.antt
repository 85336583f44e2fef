-- ===== src/MathUtils.antt =====
-- include/fbu/math_utils.hpp: the integer functions of the namespace `mu`. An `int` and an `unsigned int`
-- are their 32 bits, a number below 2 ^ 32.
pub mod Smear
pub mod PowersOfTwo
pub mod Saturating
pub mod Ranges
pub mod Angles
pub mod Logarithm
pub mod Rounding
pub mod Buffers
pub mod Polynomials
pub mod Decibels
mod Tests
use Prim.Native.Nat.{bit_and, bit_or}
use fbutils.Prelude.{
  ℕ, ◌+◌, ◌-◌, ◌*◌, ◌/◌, ◌%◌, ◌^◌, Bool, true, false, not, ◌&&◌, ◌==◌, ltb, leb, if◌then◌else◌,
  Option, none, some, List, [], ◌∷◌, get_elem?, sar,
}

-- `n |= n >> k`
abbrev pub smear_by : ℕ → ℕ → ℕ
smear_by k n = bit_or n (sar n k)

unfoldable pub next_power_of_2 : ℕ → ℕ
next_power_of_2 n =
    (smear_by 16 (smear_by 8 (smear_by 4 (smear_by 2 (smear_by 1 ((n + (2 ^ 32 - 1)) % 2 ^ 32)))))
      + 1)
    % 2 ^ 32

abbrev pub bit_positions : List ℕ
bit_positions =
    0 ∷ 1 ∷ 28 ∷ 2 ∷ 29 ∷ 14 ∷ 24 ∷ 3 ∷ 30 ∷ 22 ∷ 20 ∷ 15 ∷ 25 ∷ 17 ∷ 4 ∷ 8 ∷ 31 ∷ 27 ∷ 13 ∷ 23 ∷ 21
    ∷ 19 ∷ 16 ∷ 7 ∷ 26 ∷ 12 ∷ 18 ∷ 6 ∷ 11 ∷ 5 ∷ 10 ∷ 9 ∷ []

-- The position that the table has for `v`, whose product wraps at 32 bits.
unfoldable pub bit_position : ℕ → Option ℕ
bit_position v = get_elem? bit_positions (v * 0x077CB531 % 2 ^ 32 / 2 ^ 27)

unfoldable pub fft_order_for : ℕ → Option ℕ
unfolding bit_position next_power_of_2
fft_order_for num_samples = bit_position (next_power_of_2 num_samples)

unfoldable pub is_power_of_2 : ℕ → Bool
is_power_of_2 x = not (x == 0) && (bit_and x ((2 ^ 32 - 1 - x + 1) % 2 ^ 32) == x)

-- `imax`; the differences wrap, where the C++ of `a - b` has no meaning.
unfoldable pub imax : ℕ → ℕ → ℕ
imax a b =
    let mask = (a + 2 ^ 32 - b) % 2 ^ 32 in
    (a + bit_and ((b + 2 ^ 32 - a) % 2 ^ 32) (sar mask 31)) % 2 ^ 32

-- On `uint8_t`; the sum and the difference are `int16_t`, in which both fit.
unfoldable pub saturating_add : ℕ → ℕ → ℕ
saturating_add a b = let result = a + b in if ltb 255 result then 255 else result % 256

-- A negative difference is one below 0, which is the test of the source.
unfoldable pub saturating_subtract : ℕ → ℕ → ℕ
saturating_subtract a b = if ltb a b then 0 else (a - b) % 256

-- `approx_dBSum`: `std::max`
unfoldable pub approx_db_sum : ℕ → ℕ → ℕ
approx_db_sum a b = if ltb a b then b else a
