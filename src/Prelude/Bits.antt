-- ===== src/Prelude/Bits.antt =====
-- Digit by digit laws of the bit operations, and shifts of machine words.
use Prim.Native.Nat.{
  ℕ, zero, suc, ◌+◌, ◌-◌, ◌*◌, ◌/◌, ◌%◌, ◌^◌, ◌≤◌, ◌<◌, min, max, bit_and, bit_or, digits,
  bit_and-bitwise, bit_or-bitwise,
}
use mathlib.Core.Path.{◌≡◌, refl, ◌∙◌, sym}
use native.Mathlib.Omega.{arith}
use native.Mathlib.Nat.{two-pow-succ}
use fbutils.Prelude.Tests.{ltb, if◌then◌else◌}

-- An operation given by what it does to two digits, and by what it leaves of the second number once the
-- first has no digits.
module _ (rest : ℕ → ℕ) (on_digit : ℕ → ℕ → ℕ) where
  digits-zero : (fuel b : ℕ) → digits rest on_digit fuel 0 b ≡ rest b
  digits-zero zero b = refl
  digits-zero (suc fuel) b = refl

  digits_enough :
      (fuel more a b : ℕ)
      → a ≤ fuel
      → a ≤ more
      → digits rest on_digit fuel a b ≡ digits rest on_digit more a b
  digits_enough fuel more zero b h k = digits-zero fuel b ∙ sym (digits-zero more b)
  digits_enough zero more (suc a) b h k = absurd (omega arith)
  digits_enough (suc fuel) zero (suc a) b h k = absurd (omega arith)
  digits_enough (suc fuel) (suc more) (suc a) b h k =
      omega (arith, digits_enough fuel more (suc a / 2) (b / 2) (omega arith) (omega arith))

  digits_step :
      ((b : ℕ) → rest b ≡ rest (b / 2) * 2 + on_digit 0 (b % 2))
      → (a b : ℕ)
      → digits rest on_digit a a b
        ≡ digits rest on_digit (a / 2) (a / 2) (b / 2) * 2 + on_digit (a % 2) (b % 2)
  digits_step r zero b = r b
  digits_step r (suc a) b =
      omega (arith, digits_enough a (suc a / 2) (suc a / 2) (b / 2) (omega arith) (omega arith))

pub bit_and_step : (a b : ℕ) → bit_and a b ≡ bit_and (a / 2) (b / 2) * 2 + min (a % 2) (b % 2)
bit_and_step a b = omega (
  arith,
  bit_and-bitwise a b,
  bit_and-bitwise (a / 2) (b / 2),
  digits_step (λ b. zero) min (λ b. omega arith) a b,
)

pub bit_or_step : (a b : ℕ) → bit_or a b ≡ bit_or (a / 2) (b / 2) * 2 + max (a % 2) (b % 2)
bit_or_step a b = omega (
  arith,
  bit_or-bitwise a b,
  bit_or-bitwise (a / 2) (b / 2),
  digits_step (λ b. b) max (λ b. omega arith) a b,
)

-- Halving goes through `or`.
pub bit_or-half : (a b : ℕ) → bit_or a b / 2 ≡ bit_or (a / 2) (b / 2)
bit_or-half a b = omega (arith, bit_or_step a b)

-- A number and its complement have no digit in common.
pub bit_and-complement : (w a b : ℕ) → a + b + 1 ≡ 2 ^ w → bit_and a b ≡ 0
bit_and-complement zero a b h =
    let za : a ≡ 0 = omega arith in let zb : b ≡ 0 = omega arith in rw (za, zb)
bit_and-complement (suc w) a b h = omega (
  arith,
  bit_and_step a b,
  two-pow-succ w,
  bit_and-complement w (a / 2) (b / 2) (omega (arith, two-pow-succ w)),
)

-- A mask with all of a word's bits keeps the word, and one with none of them leaves nothing.
pub bit_and_ones : (w a : ℕ) → a < 2 ^ w → bit_and a (2 ^ w - 1) ≡ a
bit_and_ones zero a h = let z : a ≡ 0 = omega arith in rw z
bit_and_ones (suc w) a h =
    let half : (2 ^ suc w - 1) / 2 ≡ 2 ^ w - 1 = omega (arith, two-pow-succ w) in
    let rec : bit_and (a / 2) ((2 ^ suc w - 1) / 2) ≡ a / 2 =
      rw half (bit_and_ones w (a / 2) (omega (arith, two-pow-succ w))) in
    omega (arith, bit_and_step a (2 ^ suc w - 1), two-pow-succ w, rec)

pub bit_and-zero : (w a : ℕ) → a < 2 ^ w → bit_and a 0 ≡ 0
bit_and-zero zero a h = let z : a ≡ 0 = omega arith in rw z
bit_and-zero (suc w) a h =
    omega (arith, bit_and_step a 0, bit_and-zero w (a / 2) (omega (arith, two-pow-succ w)))

-- `x >> k` of an `int`, given as its bits: the sign is copied in.
abbrev pub sar : ℕ → ℕ → ℕ
sar x k = if ltb x (2 ^ 31) then x / 2 ^ k else 2 ^ 32 - 1 - (2 ^ 32 - 1 - x) / 2 ^ k
