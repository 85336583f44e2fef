-- ===== src/MathUtils/Logarithm.antt =====
-- `fast_log2` and what is made of it, and `dBToGain`. A `float` is its 32 bits, and the value that they stand
-- for a parameter, as are the conversion from `int`, `std::pow` and the constants.
use fbutils.Prelude.{ℕ, suc, ◌+◌, ◌*◌, ◌/◌, ◌%◌, ◌^◌, ◌<◌, ◌≡◌, sym, ◌∙◌, ap, arith}
use fbutils.Scalar.{Scalar, IsRing, ◌⊕◌, ◌⊖◌, ◌⊗◌, ◌⊘◌}
use fbutils.Scalar.Ring.{sub-neg, add_assoc, add_comm}

-- `(x >> 23) & 255`
unfoldable exponent_bits : ℕ → ℕ
exponent_bits x = x / 2 ^ 23 % 256

-- `x &= ~(255 << 23); x += 127 << 23;`
unfoldable with_exponent_nought : ℕ → ℕ
with_exponent_nought x = (x / 2 ^ 31 * 2 ^ 31 + x % 2 ^ 23 + 127 * 2 ^ 23) % 2 ^ 32

module _ {ℓ} {T : Type ℓ} ⦃s : Scalar T⦄ where
  unfoldable fast_log2 : (ℕ → T) → (ℕ → T) → T → T → ℕ → T
  unfolding exponent_bits with_exponent_nought
  fast_log2 value_of of_int two three x =
      let f = value_of (with_exponent_nought x) in
      ((s.neg s.unit ⊘ three) ⊗ f ⊕ two) ⊗ f ⊖ two ⊘ three ⊕ (of_int (exponent_bits x) ⊖ of_int 128)

  -- `fast_log` and `fast_log10`, of `fast_log2` and their constants
  unfoldable fast_log : (ℕ → T) → T → ℕ → T
  fast_log log2 ln_of_2 x = log2 x ⊗ ln_of_2

  unfoldable fast_log10 : (ℕ → T) → T → ℕ → T
  fast_log10 log2 log2_of_10 x = log2 x ⊘ log2_of_10

  -- `fast_gainToDB` with 20 and `fast_powToDB` with 10
  unfoldable fast_to_db : T → (ℕ → T) → ℕ → T
  fast_to_db factor log10 x = factor ⊗ log10 x

  unfoldable db_to_gain : (T → T → T) → T → T → T → T
  db_to_gain pow ten twenty db = pow ten (db ⊘ twenty)

-- What adding 1 to the exponent does to the bits
doubled_bits :
    (x : ℕ)
    → x < 2 ^ 31
    → x / 2 ^ 23 < 255
    → (exponent_bits (x + 2 ^ 23) ≡ suc (exponent_bits x))
      × (with_exponent_nought (x + 2 ^ 23) ≡ with_exponent_nought x)
unfolding exponent_bits with_exponent_nought
doubled_bits x small room = (omega arith, omega arith)

module _ {ℓ} {T : Type ℓ} ⦃s : Scalar T⦄ ⦃ring : IsRing T⦄ where
  one_more : (p q r : T) → p ⊕ (q ⊕ s.unit ⊖ r) ≡ p ⊕ (q ⊖ r) ⊕ s.unit
  one_more p q r =
      rw (sub-neg (q ⊕ s.unit) r, sub-neg q r)
        (ap (λ y. p ⊕ y)
            (add_assoc q s.unit (s.neg r)
              ∙ ap (λ y. q ⊕ y) (add_comm s.unit (s.neg r))
              ∙ sym (add_assoc q (s.neg r) s.unit))
          ∙ sym (add_assoc p (q ⊕ s.neg r) s.unit))

  -- The approximation of the binary logarithm grows by exactly 1 when 1 is added to the exponent of a positive
  -- number, which doubles one that is normal: the rest of the bits stays as it is.
  fast_log2_lem :
      (value_of of_int : ℕ → T) (two three : T)
      → ((n : ℕ) → of_int (suc n) ≡ of_int n ⊕ s.unit)
      → (x : ℕ) → x < 2 ^ 31
      → x / 2 ^ 23 < 255
      → fast_log2 value_of of_int two three (x + 2 ^ 23)
        ≡ fast_log2 value_of of_int two three x ⊕ s.unit
  unfolding fast_log2
  fast_log2_lem value_of of_int two three next x small room =
      let (up, same) = doubled_bits x small room in
      let f = value_of (with_exponent_nought x) in
      let rest = ((s.neg s.unit ⊘ three) ⊗ f ⊕ two) ⊗ f ⊖ two ⊘ three in
      rw (up, same, next (exponent_bits x)) (one_more rest (of_int (exponent_bits x)) (of_int 128))
