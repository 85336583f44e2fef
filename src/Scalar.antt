-- ===== src/Scalar.antt =====
-- The type parameter `T` of the numeric templates: what the headers do with a value of it.
--
-- The operations are a record, and the laws of exact arithmetic and of order another, which only the
-- theorems take. Machine integers that do not overflow meet them; floating point meets them only up
-- to rounding.
pub mod Ring
pub mod Order
pub mod Instances
pub mod Trig
use fbutils.Prelude.{◌≡◌, Bool, true, not, ◌⊎◌}

pub record Scalar {ℓ} (T : Type ℓ) : Type ℓ where
  pub nought : T
  pub unit : T
  pub add : T → T → T
  pub sub : T → T → T
  pub mul : T → T → T
  pub div : T → T → T
  pub neg : T → T
  pub lt : T → T → Bool
  pub le : T → T → Bool
  pub same : T → T → Bool  -- `==`

infixl 65 ◌⊕◌ ◌⊖◌
infixl 70 ◌⊗◌ ◌⊘◌
abbrev pub ◌⊕◌ {ℓ} : {T : Type ℓ} ⦃s : Scalar T⦄ → T → T → T
◌⊕◌ ⦃s⦄ = s.add

abbrev pub ◌⊖◌ {ℓ} : {T : Type ℓ} ⦃s : Scalar T⦄ → T → T → T
◌⊖◌ ⦃s⦄ = s.sub

abbrev pub ◌⊗◌ {ℓ} : {T : Type ℓ} ⦃s : Scalar T⦄ → T → T → T
◌⊗◌ ⦃s⦄ = s.mul

abbrev pub ◌⊘◌ {ℓ} : {T : Type ℓ} ⦃s : Scalar T⦄ → T → T → T
◌⊘◌ ⦃s⦄ = s.div

-- The order, with every two values comparable: no value is a NaN.
pub record IsOrdered {ℓ} (T : Type ℓ) ⦃s : Scalar T⦄ : Type ℓ where
  pub le_refl : (a : T) → s.le a a ≡ true
  pub le_trans : (a b c : T) → s.le a b ≡ true → s.le b c ≡ true → s.le a c ≡ true
  pub le_antisymm : (a b : T) → s.le a b ≡ true → s.le b a ≡ true → a ≡ b
  pub le_total : (a b : T) → (s.le a b ≡ true) ⊎ (s.le b a ≡ true)
  pub lt-not-le : (a b : T) → s.lt a b ≡ not (s.le b a)
  pub same-le : (a b : T) → s.same a b ≡ true → a ≡ b
  pub same_refl : (a : T) → s.same a a ≡ true

-- A commutative ring.
pub record IsRing {ℓ} (T : Type ℓ) ⦃s : Scalar T⦄ : Type ℓ where
  pub add_comm : (a b : T) → a ⊕ b ≡ b ⊕ a
  pub add_assoc : (a b c : T) → a ⊕ b ⊕ c ≡ a ⊕ (b ⊕ c)
  pub add-nought : (a : T) → a ⊕ s.nought ≡ a
  pub add-neg : (a : T) → a ⊕ s.neg a ≡ s.nought
  pub sub-neg : (a b : T) → a ⊖ b ≡ a ⊕ s.neg b
  pub mul_comm : (a b : T) → a ⊗ b ≡ b ⊗ a
  pub mul_assoc : (a b c : T) → a ⊗ b ⊗ c ≡ a ⊗ (b ⊗ c)
  pub mul-unit : (a : T) → a ⊗ s.unit ≡ a
  pub mul-add : (a b c : T) → a ⊗ (b ⊕ c) ≡ a ⊗ b ⊕ a ⊗ c
