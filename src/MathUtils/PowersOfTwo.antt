-- ===== src/MathUtils/PowersOfTwo.antt =====
-- `nextPowerOf2`, `fftOrderFor` and `isPowerOf2`.
use Prim.Native.Nat.{bit_and}
use native.Mathlib.Nat.{two-pow-succ, one-le-pow}
use fbutils.Prelude.{
  all_below, all_below_sound, ℕ, zero, suc, ◌+◌, ◌-◌, ◌*◌, ◌/◌, ◌%◌, ◌^◌, ◌≤◌, ◌<◌, ◌≡◌, ◌↔◌, refl,
  ◌∙◌, ap, arith, Bool, true, false, ◌==◌, dec_lt, none, some, bit_and_step, bit_and-complement,
}
use fbutils.MathUtils.{next_power_of_2, bit_position, fft_order_for, is_power_of_2}
use fbutils.MathUtils.Smear.{smears, smears-Filled}

next_power_of_2-smears :
    (n : ℕ) → next_power_of_2 n ≡ (smears ((n + (2 ^ 32 - 1)) % 2 ^ 32) + 1) % 2 ^ 32
unfolding next_power_of_2 smears
next_power_of_2-smears n = refl

-- For 1 to 2 ^ 30, `nextPowerOf2` is the least power of two that is not below the argument.
next_power_of_2_lem :
    (n : ℕ)
    → 1 ≤ n
    → n ≤ 2 ^ 30
    → (k : ℕ) × (k ≤ 30) × (next_power_of_2 n ≡ 2 ^ k) × (n ≤ 2 ^ k) × (2 ^ k < 2 * n)
next_power_of_2_lem n pos small =
    let e : (n + (2 ^ 32 - 1)) % 2 ^ 32 ≡ n - 1 = omega arith in
    let (k, b, q, v) = smears-Filled 30 (n - 1) (omega arith) (omega arith) in
    let filled : smears ((n + (2 ^ 32 - 1)) % 2 ^ 32) + 1 ≡ 2 ^ k = ap (λ m. smears m + 1) e ∙ q in
    (
      k,
      b,
      omega (arith, v.least, next_power_of_2-smears n, filled),
      omega (arith, v.above),
      omega (arith, v.least),
    )

is_position : ℕ → Bool
unfolding bit_position
is_position k = elim (bit_position (2 ^ k)) [ none ↦ false | some i ↦ i == k ]

table_right : all_below 32 is_position ≡ true
unfolding is_position
table_right = refl

position_right : (k : ℕ) → is_position k ≡ true → bit_position (2 ^ k) ≡ some k
unfolding is_position
position_right k h = ground arith

-- The table finds the position of the only bit of a word.
bit_position-pow : (k : ℕ) → k < 32 → bit_position (2 ^ k) ≡ some k
bit_position-pow k h = position_right k (all_below_sound 32 is_position k table_right h)

-- For 1 to 2 ^ 30 samples, `fftOrderFor` reads inside its table, and returns the least `k` for which
-- 2 ^ k is not below the number of samples, and that 2 ^ k is `nextPowerOf2` of the number.
pub fft_order_for_lem :
    (n : ℕ)
    → 1 ≤ n
    → n ≤ 2 ^ 30
    → (k : ℕ) × (fft_order_for n ≡ some k)
      × (next_power_of_2 n ≡ 2 ^ k)
      × (n ≤ 2 ^ k)
      × (2 ^ k < 2 * n)
unfolding fft_order_for
fft_order_for_lem n pos small =
    let (k, b, q, above, least) = next_power_of_2_lem n pos small in
    (k, ap bit_position q ∙ bit_position-pow k (omega arith), q, above, least)

abbrev IsPower : ℕ → ℕ → Type 0
IsPower w x = (k : ℕ) × (k < w) × (x ≡ 2 ^ k)

IsPower-double : (w x : ℕ) → x % 2 ≡ 0 → IsPower w (x / 2) → IsPower (suc w) x
IsPower-double w x even (k, b, e) = (suc k, omega arith, omega (arith, two-pow-succ k))

IsPower-half : (w x : ℕ) → 0 < x → x % 2 ≡ 0 → IsPower (suc w) x → IsPower w (x / 2)
IsPower-half w x pos even (zero, b, e) = absurd (omega arith)
IsPower-half w x pos even (suc k, b, e) = (k, omega arith, omega (arith, two-pow-succ k))

IsPower-odd : (w x : ℕ) → x % 2 ≡ 1 → IsPower w x → x ≡ 1
IsPower-odd w x odd (zero, b, e) = e
IsPower-odd w x odd (suc k, b, e) = absurd (omega (arith, two-pow-succ k))

-- A word and its negative have the lowest bit in common and no other.
low_bit_iff : (w x : ℕ) → 0 < x → x < 2 ^ w → (bit_and x (2 ^ w - x) ≡ x) ↔ IsPower w x
low_bit_iff zero x pos h = absurd (omega arith)
low_bit_iff (suc w) x pos h = elim (dec_lt (x % 2) 1) [
  | yes p ↦
      let even : x % 2 ≡ 0 = omega arith in
      let halves : (2 ^ suc w - x) / 2 ≡ 2 ^ w - x / 2 = omega (arith, two-pow-succ w) in
      let step : bit_and x (2 ^ suc w - x) ≡ bit_and (x / 2) (2 ^ w - x / 2) * 2 =
        omega
          (arith, bit_and_step x (2 ^ suc w - x), two-pow-succ w, ap (bit_and (x / 2)) halves) in
      let ih = low_bit_iff w (x / 2) (omega arith) (omega (arith, two-pow-succ w)) in
      (
        λ e. IsPower-double w x even (ih.0 (omega arith)),
        λ q. let r = ih.1 (IsPower-half w x pos even q) in omega arith,
      )
  | no p ↦
      let odd : x % 2 ≡ 1 = omega arith in
      let alone : bit_and (x / 2) ((2 ^ suc w - x) / 2) ≡ 0 =
        bit_and-complement w (x / 2) ((2 ^ suc w - x) / 2) (omega (arith, two-pow-succ w)) in
      let step : bit_and x (2 ^ suc w - x) ≡ 1 =
        omega (arith, bit_and_step x (2 ^ suc w - x), two-pow-succ w, alone) in
      (λ e. (0, omega arith, omega arith), λ q. let r = IsPower-odd (suc w) x odd q in omega arith)
]

-- `isPowerOf2` holds of an `unsigned int` exactly when it is a power of two.
pub is_power_of_2_iff :
    (x : ℕ) → x < 2 ^ 32 → (is_power_of_2 x ≡ true) ↔ ((k : ℕ) × (k < 32) × (x ≡ 2 ^ k))
unfolding is_power_of_2
is_power_of_2_iff zero h =
    (λ e. cc, λ (k, b, e). absurd (omega (arith, one-le-pow k 2 (omega arith))))
is_power_of_2_iff (suc y) h =
    let x = suc y in
    let negative : (2 ^ 32 - 1 - x + 1) % 2 ^ 32 ≡ 2 ^ 32 - x = omega arith in
    let low = low_bit_iff 32 x (omega arith) h in
    (
      λ e. low.0 (ground (arith, ap (bit_and x) negative)),
      λ q. let r = low.1 q in ground (arith, ap (bit_and x) negative),
    )
