-- ===== src/TimeUtils/Decimal.antt =====
-- Numbers printed with a fixed number of digits, and what the directives read of them.
use mathlib.Core.List.{append_assoc}
use native.Mathlib.Nat.{pow-succ'}
use fbutils.Prelude.{
  ℕ, zero, suc, ◌+◌, ◌-◌, ◌*◌, ◌/◌, ◌%◌, ◌^◌, ◌<◌, ◌≡◌, refl, ◌∙◌, ap, arith, true, false, some, [],
  ◌∷◌, ◌++◌, ◌==◌,
}
use fbutils.TimeUtils.{
  Text, is_space, is_digit, skip_space, digits, starts_with_digit, unsigned_int, signed_int,
}

-- The last `width` digits of a number
unfoldable pub padded : ℕ → ℕ → Text
padded zero n = []
padded (suc width) n = padded width (n / 10) ++ (48 + n % 10) ∷ []

scale_up : (b p : ℕ) → b * (10 * p) ≡ 10 * (b * p)
scale_up b p = grind arith

one_digit :
    (before d : ℕ) (rest : Text)
    → d < 10
    → digits before ((48 + d) ∷ rest) ≡ digits (before * 10 + d) rest
unfolding digits
one_digit before d rest h =
    let is : is_digit (48 + d) ≡ true = ground arith in
    let e : 48 + d - 48 ≡ d = omega arith in rw (is, e) refl

digits-padded :
    (width n before : ℕ) (rest : Text)
    → n < 10 ^ width
    → digits before (padded width n ++ rest) ≡ digits (before * 10 ^ width + n) rest
unfolding padded
digits-padded zero n before rest small =
    let e : before * 10 ^ 0 + n ≡ before = omega arith in rw e refl
digits-padded (suc width) n before rest small =
    let fits : n / 10 < 10 ^ width = omega (arith, pow-succ' 10 width) in
    let value : (before * 10 ^ width + n / 10) * 10 + n % 10 ≡ before * 10 ^ suc width + n =
      omega (arith, ap (λ z. before * z) (pow-succ' 10 width), scale_up before (10 ^ width)) in
    ap (digits before) (append_assoc (padded width (n / 10)) ((48 + n % 10) ∷ []) rest)
    ∙ digits-padded width (n / 10) before ((48 + n % 10) ∷ rest) fits
    ∙ one_digit (before * 10 ^ width + n / 10) (n % 10) rest (omega arith)
    ∙ ap (λ v. digits v rest) value

digits_end : (n : ℕ) (rest : Text) → starts_with_digit rest ≡ false → digits n rest ≡ (n, rest)
unfolding digits
digits_end n [] h = refl
digits_end n (c ∷ s) h = rw h refl

a_digit : (d : ℕ) → d < 10 → is_digit (48 + d) ≡ true
a_digit d h = ground arith

starts-padded :
    (width n : ℕ) (rest : Text)
    → starts_with_digit rest ≡ true
    → starts_with_digit (padded width n ++ rest) ≡ true
unfolding padded
starts-padded zero n rest h = h
starts-padded (suc width) n rest h =
    ap starts_with_digit (append_assoc (padded width (n / 10)) ((48 + n % 10) ∷ []) rest)
    ∙ starts-padded width (n / 10) ((48 + n % 10) ∷ rest) (a_digit (n % 10) (omega arith))

padded-starts :
    (width n : ℕ) (rest : Text) → starts_with_digit (padded (suc width) n ++ rest) ≡ true
unfolding padded
padded-starts width n rest =
    ap starts_with_digit (append_assoc (padded width (n / 10)) ((48 + n % 10) ∷ []) rest)
    ∙ starts-padded width (n / 10) ((48 + n % 10) ∷ rest) (a_digit (n % 10) (omega arith))

unsigned_int-padded :
    (width n : ℕ) (rest : Text)
    → n < 10 ^ suc width
    → n < 2 ^ 32
    → starts_with_digit rest ≡ false
    → unsigned_int (padded (suc width) n ++ rest) ≡ some (n, rest)
unfolding unsigned_int
unsigned_int-padded width n rest small word h =
    let start : 0 * 10 ^ suc width + n ≡ n = grind arith in
    let value : digits 0 (padded (suc width) n ++ rest) ≡ (n, rest) =
      digits-padded (suc width) n 0 rest small
      ∙ ap (λ v. digits v rest) start
      ∙ digits_end n rest h in
    let cut : n % 2 ^ 32 ≡ n = omega arith in rw (value, padded-starts width n rest, cut) refl

skip_space_none : (s : Text) → starts_with_digit s ≡ true → skip_space s ≡ s
unfolding skip_space
skip_space_none [] h = cc
skip_space_none (c ∷ s) h = let e : is_space c ≡ false = ground arith in rw e refl

signed_int-unsigned_int : (s : Text) → starts_with_digit s ≡ true → signed_int s ≡ unsigned_int s
unfolding signed_int
signed_int-unsigned_int [] h = cc
signed_int-unsigned_int (c ∷ s) h =
    let no_minus : (c == 45) ≡ false = ground arith in
    let no_plus : (c == 43) ≡ false = ground arith in rw (no_minus, no_plus) refl

-- `%d` reads a number that was printed with digits, up to the character behind it.
pub signed_int-padded :
    (width n : ℕ) (rest : Text)
    → n < 10 ^ suc width
    → n < 2 ^ 32
    → starts_with_digit rest ≡ false
    → signed_int (skip_space (padded (suc width) n ++ rest)) ≡ some (n, rest)
signed_int-padded width n rest small word h =
    let starts = padded-starts width n rest in
    ap signed_int (skip_space_none (padded (suc width) n ++ rest) starts)
    ∙ signed_int-unsigned_int (padded (suc width) n ++ rest) starts
    ∙ unsigned_int-padded width n rest small word h
