-- ===== src/MultichannelMeters/Rows.antt =====
-- `updateNumMeters` and the other methods of the row: what stands in it afterwards, and where.
use mathlib.Core.Path.{subst}
use mathlib.Core.Option.{some-injective}
use fbutils.Prelude.{
  ℕ, zero, suc, ◌+◌, ◌-◌, ◌*◌, ◌^◌, ◌≤◌, ◌<◌, ◌≡◌, ◌≢◌, refl, sym, ap, ◌∙◌, some, arith, length,
  get_elem?, List, [], ◌∷◌, or_else, dec_lt, ◌>>=◌, ==-false,
}
use fbutils.MultichannelMeters.{
  MultichannelMeters, new_label, growth_loop, shrink_loop, each_from, place_of, put_component,
  put_label, reposition, update_num_meters,
}
use fbutils.MultichannelMeters.Growth.{
  added, IsRowOf, growth_loop-IsRowOf, growth_loop-same, shrink_loop-IsRowOf, shrink_loop-same,
}

module _ {ℓ} {A : Type ℓ} where
  pub length-each_from :
      (f : ℕ → A → A) (k : ℕ) (xs : List A) → length (each_from f k xs) ≡ length xs
  unfolding each_from
  length-each_from f k [] = refl
  length-each_from f k (x ∷ xs) = ap suc (length-each_from f (k + 1) xs)

  get_elem?-each_from :
      (f : ℕ → A → A) (k : ℕ) (xs : List A) (i : ℕ) {a : A}
      → get_elem? xs i ≡ some a
      → get_elem? (each_from f k xs) i ≡ some (f (k + i) a)
  unfolding each_from
  get_elem?-each_from f k [] i h = cc
  get_elem?-each_from f k (x ∷ xs) zero {a} h =
      ap (λ o. o >>= λ y. some (f k y)) h ∙ ap (λ j. some (f j a)) (omega arith)
  get_elem?-each_from f k (x ∷ xs) (suc i) {a} h =
      get_elem?-each_from f (k + 1) xs i h ∙ ap (λ j. some (f j a)) (omega arith)

  get_elem?-each :
      (f : ℕ → A → A) (xs : List A) (i : ℕ) {a : A}
      → get_elem? xs i ≡ some a
      → get_elem? (each_from f 0 xs) i ≡ some (f i a)
  get_elem?-each f xs i {a} h =
      get_elem?-each_from f 0 xs i h ∙ ap (λ j. some (f j a)) (omega arith)

  -- What stands in the list after the loop stood there before it.
  before-each_from :
      (f : ℕ → A → A) (k : ℕ) (xs : List A) (i : ℕ) {b : A}
      → get_elem? (each_from f k xs) i ≡ some b
      → (a : A) × (get_elem? xs i ≡ some a) × (f (k + i) a ≡ b)
  unfolding each_from
  before-each_from f k [] i h = absurd cc
  before-each_from f k (x ∷ xs) zero {b} h =
      (x, refl, ap (λ j. f j x) (omega arith) ∙ some-injective (f k x) b h)
  before-each_from f k (x ∷ xs) (suc i) {b} h =
      let (a, held, e) = before-each_from f (k + 1) xs i h in
      (a, held, ap (λ j. f j a) (omega arith) ∙ e)

  pub before-each :
      (f : ℕ → A → A) (xs : List A) (i : ℕ) {b : A}
      → get_elem? (each_from f 0 xs) i ≡ some b
      → (a : A) × (get_elem? xs i ≡ some a) × (f i a ≡ b)
  before-each f xs i h =
      let (a, held, e) = before-each_from f 0 xs i h in (a, held, ap (λ j. f j a) (omega arith) ∙ e)

-- The loops together
resized :
    (array n : ℕ) (m : MultichannelMeters)
    → length m.labels ≡ length m.components
    → let grown = growth_loop n array n m in
      IsRowOf array n m (shrink_loop (length grown.components) n grown)
resized array n m same = elim (dec_lt (length m.components) n) [
  | yes less ↦
      let grown = growth_loop-IsRowOf n array n m same (omega arith) (omega arith) in
      subst (IsRowOf array n m)
        (sym (
          shrink_loop-same (length (growth_loop n array n m).components) n (growth_loop n array n m)
            (omega (arith, grown.1))))
        grown
  | no q ↦
      subst (λ g. IsRowOf array n m (shrink_loop (length g.components) n g))
        (sym (growth_loop-same n array n m (omega arith)))
        (shrink_loop-IsRowOf (length m.components) array n m same (omega arith) (omega arith))
]

-- On a row that has as many labels as components, but not `n`, `updateNumMeters` leaves `n` of both, and the
-- width as it was: component and label `i` are the ones that were there, or new ones for the meter at index
-- `i` of the array, put in their places.
pub update_num_meters_lem :
    (array n : ℕ) (m : MultichannelMeters)
    → length m.labels ≡ length m.components
    → length m.components ≢ n
    → let left = update_num_meters array n m in
      (left.width ≡ m.width)
      × (length left.components ≡ n)
      × (length left.labels ≡ n)
      × ((i : ℕ)
          → i < n
          → (get_elem? left.components i
              ≡ some
                  (put_component m.width n i (or_else (get_elem? m.components i) (added array i))))
            × (get_elem? left.labels i
                ≡ some (put_label m.width n i (or_else (get_elem? m.labels i) new_label))))
unfolding update_num_meters reposition
update_num_meters_lem array n m same differ =
    let grown = growth_loop n array n m in
    let shrunk = shrink_loop (length grown.components) n grown in
    let (width, len, lens, held) = resized array n m same in
    rw (==-false n (length m.components) (λ e. differ (sym e))) (
      width,
      length-each_from _ 0 shrunk.components ∙ len,
      length-each_from _ 0 shrunk.labels ∙ lens,
      λ i below. (
        get_elem?-each (put_component shrunk.width n) shrunk.components i (held i below).0
            ∙ ap
                (λ w.
                  some (put_component w n i (or_else (get_elem? m.components i) (added array i))))
                width,
        get_elem?-each (put_label shrunk.width n) shrunk.labels i (held i below).1
            ∙ ap (λ w. some (put_label w n i (or_else (get_elem? m.labels i) new_label))) width,
      ),
    )

-- In a component that is wide enough for its bars, each bar of 5 lies inside it, 10 to the right of the
-- one before it, and above its label, which is 11 wide and reaches 3 to each side of it.
place_of_lem :
    (width n i : ℕ)
    → 10 * n + 2 ≤ width
    → width < 2 ^ 31
    → i < n
    → (place_of width n 2 i + 5 ≤ width)
      × (place_of width n 2 (i + 1) ≡ place_of width n 2 i + 10)
      × (place_of width n (2 ^ 32 - 1) i + 3 ≡ place_of width n 2 i)
unfolding place_of
place_of_lem width n i enough small below = (omega arith, omega arith, omega arith)
