-- ===== src/Scalar/Ring.antt =====
-- Laws that follow in every commutative ring, and the set that brings both sides of an equation to one
-- form.
use fbutils.Prelude.{◌≡◌, sym, ◌∙◌, ap}
use fbutils.Scalar.{Scalar, IsRing, ◌⊕◌, ◌⊖◌, ◌⊗◌}

module _ {ℓ} {T : Type ℓ} ⦃s : Scalar T⦄ ⦃ring : IsRing T⦄ where
  pub add_comm : (a b : T) → a ⊕ b ≡ b ⊕ a
  add_comm = ring.add_comm

  pub add_assoc : (a b c : T) → a ⊕ b ⊕ c ≡ a ⊕ (b ⊕ c)
  add_assoc = ring.add_assoc

  pub add-nought : (a : T) → a ⊕ s.nought ≡ a
  add-nought = ring.add-nought

  pub add-neg : (a : T) → a ⊕ s.neg a ≡ s.nought
  add-neg = ring.add-neg

  pub sub-neg : (a b : T) → a ⊖ b ≡ a ⊕ s.neg b
  sub-neg = ring.sub-neg

  pub mul_comm : (a b : T) → a ⊗ b ≡ b ⊗ a
  mul_comm = ring.mul_comm

  pub mul_assoc : (a b c : T) → a ⊗ b ⊗ c ≡ a ⊗ (b ⊗ c)
  mul_assoc = ring.mul_assoc

  pub mul-unit : (a : T) → a ⊗ s.unit ≡ a
  mul-unit = ring.mul-unit

  pub mul-add : (a b c : T) → a ⊗ (b ⊕ c) ≡ a ⊗ b ⊕ a ⊗ c
  mul-add = ring.mul-add

  pub add_left_comm : (a b c : T) → a ⊕ (b ⊕ c) ≡ b ⊕ (a ⊕ c)
  add_left_comm a b c = sym (add_assoc a b c) ∙ ap (λ x. x ⊕ c) (add_comm a b) ∙ add_assoc b a c

  pub mul_left_comm : (a b c : T) → a ⊗ (b ⊗ c) ≡ b ⊗ (a ⊗ c)
  mul_left_comm a b c = sym (mul_assoc a b c) ∙ ap (λ x. x ⊗ c) (mul_comm a b) ∙ mul_assoc b a c

  pub add-mul : (a b c : T) → (a ⊕ b) ⊗ c ≡ a ⊗ c ⊕ b ⊗ c
  add-mul a b c = rw (mul_comm (a ⊕ b) c, mul-add c a b, mul_comm c a, mul_comm c b)

  pub nought-add : (a : T) → s.nought ⊕ a ≡ a
  nought-add a = add_comm s.nought a ∙ add-nought a

  pub unit-mul : (a : T) → s.unit ⊗ a ≡ a
  unit-mul a = mul_comm s.unit a ∙ mul-unit a

  -- What is subtracted and added again is back.
  pub add_neg_right : (a b : T) → a ⊕ b ⊕ s.neg b ≡ a
  add_neg_right a b = add_assoc a b (s.neg b) ∙ ap (λ x. a ⊕ x) (add-neg b) ∙ add-nought a

  -- To prove an equation, a term may be added and subtracted again.
  pub by_cancel : (z : T) {l r : T} → l ≡ r ⊕ z ⊕ s.neg z → l ≡ r
  by_cancel z {r = r} e = e ∙ add_neg_right r z

  -- What is added to both sides can be left out.
  pub add_cancel : (a b c : T) → a ⊕ c ≡ b ⊕ c → a ≡ b
  add_cancel a b c e = sym (add_neg_right a c) ∙ ap (λ x. x ⊕ s.neg c) e ∙ add_neg_right b c

  pub neg_unique : (a b : T) → a ⊕ b ≡ s.nought → b ≡ s.neg a
  neg_unique a b e =
      add_cancel b (s.neg a) a (add_comm b a ∙ e ∙ sym (add_comm (s.neg a) a ∙ add-neg a))

  pub mul-nought : (a : T) → a ⊗ s.nought ≡ s.nought
  mul-nought a = add_cancel (a ⊗ s.nought) s.nought (a ⊗ s.nought) (
      sym (mul-add a s.nought s.nought)
      ∙ ap (λ x. a ⊗ x) (add-nought s.nought)
      ∙ sym (nought-add (a ⊗ s.nought)))

  pub nought-mul : (a : T) → s.nought ⊗ a ≡ s.nought
  nought-mul a = mul_comm s.nought a ∙ mul-nought a

  pub mul-neg : (a b : T) → a ⊗ s.neg b ≡ s.neg (a ⊗ b)
  mul-neg a b =
      neg_unique (a ⊗ b) (a ⊗ s.neg b)
        (sym (mul-add a b (s.neg b)) ∙ ap (λ x. a ⊗ x) (add-neg b) ∙ mul-nought a)

  pub neg-mul : (a b : T) → s.neg a ⊗ b ≡ s.neg (a ⊗ b)
  neg-mul a b = mul_comm (s.neg a) b ∙ mul-neg b a ∙ ap s.neg (mul_comm b a)

  pub neg-neg : (a : T) → s.neg (s.neg a) ≡ a
  neg-neg a = sym (neg_unique (s.neg a) a (add_comm (s.neg a) a ∙ add-neg a))

  pub neg-nought : s.neg s.nought ≡ s.nought
  neg-nought = sym (neg_unique s.nought s.nought (add-nought s.nought))

  pub add_swap : (a b c d : T) → a ⊕ b ⊕ (c ⊕ d) ≡ a ⊕ c ⊕ (b ⊕ d)
  add_swap a b c d =
      add_assoc a b (c ⊕ d) ∙ ap (λ x. a ⊕ x) (add_left_comm b c d) ∙ sym (add_assoc a c (b ⊕ d))

  pub neg-add : (a b : T) → s.neg (a ⊕ b) ≡ s.neg a ⊕ s.neg b
  neg-add a b = sym (
      neg_unique (a ⊕ b) (s.neg a ⊕ s.neg b)
        (add_swap a b (s.neg a) (s.neg b) ∙ rw (add-neg a, add-neg b, add-nought s.nought)))

pub ruleset ring_laws = (
  sub-neg, mul-add, add-mul, mul-neg, neg-mul, neg-add, neg-neg, add_assoc, add_comm, add_left_comm,
  mul_assoc, mul_comm, mul_left_comm, nought-add, add-nought, mul-unit, unit-mul, mul-nought,
  nought-mul, neg-nought,
)
