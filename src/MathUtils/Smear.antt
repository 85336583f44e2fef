-- ===== src/MathUtils/Smear.antt =====
-- Copying the highest bit of a word into all below it, by five shifts.
use Prim.Native.Nat.{bit_or, max}
use native.Mathlib.Nat.{two-pow-succ}
use fbutils.Prelude.{
  ℕ, zero, suc, ◌+◌, ◌*◌, ◌/◌, ◌%◌, ◌^◌, ◌≤◌, ◌<◌, ◌≡◌, refl, ◌∙◌, ap, arith, bit_or_step,
  bit_or-half,
}
use fbutils.MathUtils.{smear_by}

-- `smear_by`, where the sign bit is not set.
or_shifted : ℕ → ℕ → ℕ
or_shifted d n = bit_or n (n / d)

-- The shifts by 1, 2, 4, 8 and 16.
smear_1 : ℕ → ℕ
smear_1 n = or_shifted 2 n

smear_2 : ℕ → ℕ
smear_2 n = or_shifted 4 (smear_1 n)

smear_4 : ℕ → ℕ
smear_4 n = or_shifted 16 (smear_2 n)

smear_8 : ℕ → ℕ
smear_8 n = or_shifted 256 (smear_4 n)

smear_16 : ℕ → ℕ
smear_16 n = or_shifted 65536 (smear_8 n)

-- A function that halving goes through, and so division by 2 ^ 16.
record Halves (f : ℕ → ℕ) : Type 0 where
  by_2 : (n : ℕ) → f n / 2 ≡ f (n / 2)

module _ (f : ℕ → ℕ) (h : Halves f) where
  by_4 : (n : ℕ) → f n / 4 ≡ f (n / 4)
  by_4 n =
      let e : n / 2 / 2 ≡ n / 4 = omega arith in omega (arith, h.by_2 n, h.by_2 (n / 2), ap f e)

  by_16 : (n : ℕ) → f n / 16 ≡ f (n / 16)
  by_16 n = let e : n / 4 / 4 ≡ n / 16 = omega arith in omega (arith, by_4 n, by_4 (n / 4), ap f e)

  by_256 : (n : ℕ) → f n / 256 ≡ f (n / 256)
  by_256 n =
      let e : n / 16 / 16 ≡ n / 256 = omega arith in omega (arith, by_16 n, by_16 (n / 16), ap f e)

  by_65536 : (n : ℕ) → f n / 65536 ≡ f (n / 65536)
  by_65536 n =
      let e : n / 256 / 256 ≡ n / 65536 = omega arith in
      omega (arith, by_256 n, by_256 (n / 256), ap f e)

module _ (f : ℕ → ℕ) (h : Halves f) where
  or_shifted-Halves : (d : ℕ) → ((n : ℕ) → n / d / 2 ≡ n / 2 / d) → Halves (λ n. or_shifted d (f n))
  unfolding or_shifted
  or_shifted-Halves d swap = record {
    by_2 = λ n. bit_or-half (f n) (f n / d) ∙ rw (swap (f n), h.by_2 n);
  }

-- The lowest bit of the result: whether there is a bit in the lowest so many.
module _ (f : ℕ → ℕ) where
  or_shifted-mod : (d n : ℕ) → or_shifted d (f n) % 2 ≡ max (f n % 2) (f n / d % 2)
  unfolding or_shifted
  or_shifted-mod d n = omega (arith, bit_or_step (f n) (f n / d))

smear_1-Halves : Halves smear_1
unfolding smear_1
smear_1-Halves = or_shifted-Halves (λ n. n) (record { by_2 = λ n. refl }) 2 (λ n. refl)

smear_2-Halves : Halves smear_2
unfolding smear_2
smear_2-Halves = or_shifted-Halves smear_1 smear_1-Halves 4 (λ n. omega arith)

smear_4-Halves : Halves smear_4
unfolding smear_4
smear_4-Halves = or_shifted-Halves smear_2 smear_2-Halves 16 (λ n. omega arith)

smear_8-Halves : Halves smear_8
unfolding smear_8
smear_8-Halves = or_shifted-Halves smear_4 smear_4-Halves 256 (λ n. omega arith)

smear_16-Halves : Halves smear_16
unfolding smear_16
smear_16-Halves = or_shifted-Halves smear_8 smear_8-Halves 65536 (λ n. omega arith)

abbrev nonzero : ℕ → ℕ
nonzero zero = 0
nonzero (suc n) = 1

smear_1-mod : (n : ℕ) → smear_1 n % 2 ≡ nonzero (n % 4)
unfolding smear_1
smear_1-mod n = ground (arith, or_shifted-mod (λ n. n) 2 n)

smear_2-mod : (n : ℕ) → smear_2 n % 2 ≡ nonzero (n % 16)
unfolding smear_2
smear_2-mod n = ground (
  arith,
  or_shifted-mod smear_1 4 n,
  by_4 smear_1 smear_1-Halves n,
  smear_1-mod n,
  smear_1-mod (n / 4),
)

smear_4-mod : (n : ℕ) → smear_4 n % 2 ≡ nonzero (n % 256)
unfolding smear_4
smear_4-mod n = ground (
  arith,
  or_shifted-mod smear_2 16 n,
  by_16 smear_2 smear_2-Halves n,
  smear_2-mod n,
  smear_2-mod (n / 16),
)

smear_8-mod : (n : ℕ) → smear_8 n % 2 ≡ nonzero (n % 65536)
unfolding smear_8
smear_8-mod n = ground (
  arith,
  or_shifted-mod smear_4 256 n,
  by_256 smear_4 smear_4-Halves n,
  smear_4-mod n,
  smear_4-mod (n / 256),
)

smear_16-mod : (n : ℕ) → smear_16 n % 2 ≡ nonzero (n % 2 ^ 32)
unfolding smear_16
smear_16-mod n = ground (
  arith,
  or_shifted-mod smear_8 65536 n,
  by_65536 smear_8 smear_8-Halves n,
  smear_8-mod n,
  smear_8-mod (n / 65536),
)

smear_16-zero : smear_16 0 ≡ 0
unfolding smear_16 smear_8 smear_4 smear_2 smear_1 or_shifted
smear_16-zero = refl

-- 2 ^ k is the least power of two above a number.
pub record IsAbove (n k : ℕ) : Type 0 where
  pub above : n < 2 ^ k
  pub least : 2 ^ k ≤ max 1 (2 * n)

abbrev Filled : ℕ → ℕ → Type 0
Filled w n = (k : ℕ) × (k ≤ w) × (smear_16 n + 1 ≡ 2 ^ k) × IsAbove n k

Filled-zero : (w : ℕ) → Filled w 0
Filled-zero w =
    (0, omega arith, rw smear_16-zero, record { above = omega arith; least = omega arith })

-- The higher half of a number first, and its lowest bit behind.
Filled-suc : (w n : ℕ) → n < 2 ^ 32 → 0 < n → Filled w (n / 2) → Filled (suc w) n
Filled-suc w n h pos (k, b, e, v) =
    let low : smear_16 n % 2 ≡ 1 = ground (arith, smear_16-mod n) in
    (
      suc k,
      omega arith,
      omega (arith, low, smear_16-Halves.by_2 n, two-pow-succ k),
      record {
        above = omega (arith, v.above, two-pow-succ k);
        least = omega (arith, v.least, two-pow-succ k);
      },
    )

smear_16-Filled : (w n : ℕ) → n < 2 ^ w → n < 2 ^ 32 → Filled w n
smear_16-Filled zero n h l = let z : n ≡ 0 = omega arith in rw z (Filled-zero 0)
smear_16-Filled (suc w) zero h l = Filled-zero (suc w)
smear_16-Filled (suc w) (suc n) h l =
    Filled-suc w (suc n) l (omega arith)
      (smear_16-Filled w (suc n / 2) (omega (arith, two-pow-succ w)) (omega arith))

bit_or-lt : (w a b : ℕ) → a < 2 ^ w → b < 2 ^ w → bit_or a b < 2 ^ w
bit_or-lt zero a b h k =
    let za : a ≡ 0 = omega arith in let zb : b ≡ 0 = omega arith in rw (za, zb) (omega arith)
bit_or-lt (suc w) a b h k = omega (
  arith,
  bit_or_step a b,
  two-pow-succ w,
  bit_or-lt w (a / 2) (b / 2) (omega (arith, two-pow-succ w)) (omega (arith, two-pow-succ w)),
)

smear_by-or_shifted : (k n : ℕ) → n < 2 ^ 31 → smear_by k n ≡ or_shifted (2 ^ k) n
unfolding or_shifted
smear_by-or_shifted k n h = ground arith

or_shifted-lt : (d n : ℕ) → n < 2 ^ 31 → n / d ≤ n → or_shifted d n < 2 ^ 31
unfolding or_shifted
or_shifted-lt d n h k = bit_or-lt 31 n (n / d) h (omega arith)

-- The five steps of the source, on a number whose sign bit is not set.
unfoldable pub smears : ℕ → ℕ
smears n = smear_by 16 (smear_by 8 (smear_by 4 (smear_by 2 (smear_by 1 n))))

smears-smear_16 : (n : ℕ) → n < 2 ^ 31 → smears n ≡ smear_16 n
unfolding smears smear_16 smear_8 smear_4 smear_2 smear_1
smears-smear_16 n h =
    let a = or_shifted 2 n in
    let la : a < 2 ^ 31 = or_shifted-lt 2 n h (omega arith) in
    let b = or_shifted 4 a in
    let lb : b < 2 ^ 31 = or_shifted-lt 4 a la (omega arith) in
    let c = or_shifted 16 b in
    let lc : c < 2 ^ 31 = or_shifted-lt 16 b lb (omega arith) in
    let d = or_shifted 256 c in
    let ld : d < 2 ^ 31 = or_shifted-lt 256 c lc (omega arith) in
    ap (λ m. smear_by 16 (smear_by 8 (smear_by 4 (smear_by 2 m)))) (smear_by-or_shifted 1 n h)
    ∙ ap (λ m. smear_by 16 (smear_by 8 (smear_by 4 m))) (smear_by-or_shifted 2 a la)
    ∙ ap (λ m. smear_by 16 (smear_by 8 m)) (smear_by-or_shifted 4 b lb)
    ∙ ap (smear_by 16) (smear_by-or_shifted 8 c lc)
    ∙ smear_by-or_shifted 16 d ld

-- They leave one less than the least power of two above the number.
pub smears-Filled :
    (w n : ℕ) → n < 2 ^ w → n < 2 ^ 31 → (k : ℕ) × (k ≤ w) × (smears n + 1 ≡ 2 ^ k) × IsAbove n k
smears-Filled w n h l = rw (smears-smear_16 n l) (smear_16-Filled w n h (omega arith))
