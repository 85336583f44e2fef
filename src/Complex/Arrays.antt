-- ===== src/Complex/Arrays.antt =====
-- The loops over arrays of complex numbers: what each element holds afterwards.
use fbutils.Prelude.{
  ℕ, ◌+◌, ◌-◌, ◌/◌, ◌≤◌, ◌<◌, suc, zero, ◌≡◌, ◌≢◌, refl, sym, ◌∙◌, ap, arith, Option, none, some,
  List, [], ◌∷◌, get_elem?, set, length, length-set, get_elem?-set_self, lt-length_of_get_elem?,
  get_below, Updated, Updated-turn, get_elem?-set_ne, ◌>>=◌, ℕ_discrete,
}
use fbutils.Scalar.{Scalar}
use fbutils.Complex.{
  Complex, conj, scale_assign, minus_assign, sym_conj_step, sym_conj_loop, vect_sym_conj,
  subtract_loop, vect_subtract, product_loop, vect_product,
}

module _ {ℓ} {T : Type ℓ} ⦃s : Scalar T⦄ where
  -- What the loop leaves at `i`, if it starts at `u` and there are `size` elements.
  abbrev Mirrored : ℕ → ℕ → List (Complex T) → List (Complex T) → Type ℓ
  Mirrored size u v w =
      (length w ≡ length v)
      × ((i : ℕ) → i ≤ size - size / 2 → get_elem? w i ≡ get_elem? v i)
      × ((i : ℕ) → size - u < i → get_elem? w i ≡ get_elem? v i)
      × ((k : ℕ) (a : Complex T)
          → u ≤ k
          → k < size / 2
          → get_elem? v k ≡ some a
          → get_elem? w (size - k) ≡ some (conj a))

  sym_conj_loop-turn :
      (fuel size u : ℕ) (v : List (Complex T)) {a b : Complex T}
      → u ≢ size / 2
      → get_elem? v u ≡ some a
      → get_elem? v (size - u) ≡ some b
      → sym_conj_loop (suc fuel) size u v
        ≡ sym_conj_loop fuel size (u + 1) (set v (size - u) (conj a))
  unfolding sym_conj_loop sym_conj_step
  sym_conj_loop-turn fuel size u v ne ha hb = ground arith

  sym_conj_loop_lem :
      (fuel size u : ℕ) (v : List (Complex T))
      → length v ≡ size
      → 1 ≤ u
      → u ≤ size / 2
      → size / 2 < u + fuel
      → (w : List (Complex T)) × (sym_conj_loop fuel size u v ≡ some w) × Mirrored size u v w
  unfolding sym_conj_loop sym_conj_step
  sym_conj_loop_lem zero size u v e one low enough = absurd (omega arith)
  sym_conj_loop_lem (suc fuel) size u v e one low enough = elim (ℕ_discrete u (size / 2)) [
    | yes p ↦ (v, ground arith, (refl, λ i h. refl, λ i h. refl, λ k a h h'. absurd (omega arith)))
    | no p ↦
        let (a, ha) = get_below v u (omega arith) in
        let (b, hb) = get_below v (size - u) (omega arith) in
        let v1 = set v (size - u) (conj a) in
        let (w, run, (len, low_part, high_part, mid)) =
          sym_conj_loop_lem fuel size (u + 1) v1 (length-set v (size - u) (conj a) ∙ e)
            (omega arith) (omega arith) (omega arith) in
        (
          w,
          sym_conj_loop-turn fuel size u v p ha hb ∙ run,
          (
            len ∙ length-set v (size - u) (conj a),
            λ i h. low_part i h ∙ get_elem?-set_ne v (conj a) (omega arith),
            λ i h. high_part i (omega arith) ∙ get_elem?-set_ne v (conj a) (omega arith),
            λ k b from below held. elim (ℕ_discrete u k) [
              | yes q ↦
                  ap (λ z. get_elem? w (size - z)) (sym q)
                  ∙ high_part (size - u) (omega arith)
                  ∙ get_elem?-set_self v (size - u) (conj a)
                      (lt-length_of_get_elem? v (size - u) hb)
                  ∙ ap (λ o. o >>= λ x. some (conj x)) (sym ha ∙ ap (get_elem? v) q ∙ held)
              | no q ↦
                  mid k b (omega arith) below (get_elem?-set_ne v (conj a) (omega arith) ∙ held)
            ],
          ),
        )
  ]

  -- `vectSymConj` of `size` elements, 2 or more, ends with no access out of bounds; it sets element
  -- `size - k` to the conjugate of element `k` for each `k` from 1 to below half of `size`, and keeps the
  -- elements up to the middle.
  vect_sym_conj_lem :
      (v : List (Complex T))
      → 2 ≤ length v
      → (w : List (Complex T)) × (vect_sym_conj v (length v) ≡ some w)
        × (length w ≡ length v)
        × ((i : ℕ) → i ≤ length v - length v / 2 → get_elem? w i ≡ get_elem? v i)
        × ((k : ℕ) (a : Complex T)
            → 1 ≤ k
            → k < length v / 2
            → get_elem? w k ≡ some a
            → get_elem? w (length v - k) ≡ some (conj a))
  unfolding vect_sym_conj
  vect_sym_conj_lem v two =
      let (w, run, (len, low_part, high_part, mid)) =
        sym_conj_loop_lem (length v + 1) (length v) 1 v refl (omega arith) (omega arith)
          (omega arith) in
      (
        w,
        run,
        len,
        low_part,
        λ k a one below held. mid k a one below (sym (low_part k (omega arith)) ∙ held),
      )

  -- With fewer than 2 elements `vectSymConj` reads out of bounds.
  pub vect_sym_conj-short :
      (v : List (Complex T)) → length v < 2 → vect_sym_conj v (length v) ≡ none
  unfolding vect_sym_conj sym_conj_loop sym_conj_step
  vect_sym_conj-short [] h = refl
  vect_sym_conj-short (x ∷ []) h = refl
  vect_sym_conj-short (x ∷ y ∷ v) h = absurd (omega arith)

  product_loop_lem :
      (left u : ℕ) (x : T) (ys : List (Complex T))
      → u + left ≤ length ys
      → (w : List (Complex T)) × (product_loop left u x ys ≡ some w)
        × Updated (λ i y. scale_assign y x) left u ys w
  unfolding product_loop
  product_loop_lem zero u x ys fits =
      (ys, refl, (refl, λ i y a b. absurd (omega arith), λ i a. refl, λ i a. refl))
  product_loop_lem (suc left) u x ys fits =
      let (y, held) = get_below ys u (omega arith) in
      let (w, run, parts) =
        product_loop_lem left (u + 1) x (set ys u (scale_assign y x))
          (omega (arith, length-set ys u (scale_assign y x))) in
      (w, rw held run, Updated-turn (λ i y. scale_assign y x) left u ys w held refl parts)

  abbrev minus_at : Option (Complex T) → Complex T → Complex T
  minus_at none y = y
  minus_at (some x) y = minus_assign y x

  subtract_loop_lem :
      (left u : ℕ) (xs ys : List (Complex T))
      → u + left ≤ length xs
      → u + left ≤ length ys
      → (w : List (Complex T)) × (subtract_loop left u xs ys ≡ some w)
        × Updated (λ i. minus_at (get_elem? xs i)) left u ys w
  unfolding subtract_loop
  subtract_loop_lem zero u xs ys fits fits' =
      (ys, refl, (refl, λ i y a b. absurd (omega arith), λ i a. refl, λ i a. refl))
  subtract_loop_lem (suc left) u xs ys fits fits' =
      let (y, held) = get_below ys u (omega arith) in
      let (x, read) = get_below xs u (omega arith) in
      let (w, run, parts) =
        subtract_loop_lem left (u + 1) xs (set ys u (minus_assign y x)) (omega arith)
          (omega (arith, length-set ys u (minus_assign y x))) in
      (
        w,
        rw (held, read) run,
        Updated-turn (λ i. minus_at (get_elem? xs i)) left u ys w held (ap (λ o. minus_at o y) read)
            parts,
      )

  -- `vectSubtract_I` of `size` elements that both arrays have ends with no access out of bounds; each
  -- element below `size` is then the one before less that of the other array, and `vectProductSC_I`
  -- likewise multiplies each by the scalar. The elements from `size` on are as before.
  vect_loops_lem :
      (x : T) (xs ys : List (Complex T)) (size : ℕ)
      → size ≤ length xs
      → size ≤ length ys
      → ((w : List (Complex T)) × (vect_subtract xs ys size ≡ some w)
          × (length w ≡ length ys)
          × ((i : ℕ) (a b : Complex T)
              → i < size
              → get_elem? xs i ≡ some a
              → get_elem? ys i ≡ some b
              → get_elem? w i ≡ some (minus_assign b a))
          × ((i : ℕ) → size ≤ i → get_elem? w i ≡ get_elem? ys i))
        × ((w : List (Complex T)) × (vect_product x ys size ≡ some w)
            × (length w ≡ length ys)
            × ((i : ℕ) (b : Complex T)
                → i < size
                → get_elem? ys i ≡ some b
                → get_elem? w i ≡ some (scale_assign b x))
            × ((i : ℕ) → size ≤ i → get_elem? w i ≡ get_elem? ys i))
  unfolding vect_subtract vect_product
  vect_loops_lem x xs ys size fits fits' =
      let (w, run, (len, inside, before, after)) =
        subtract_loop_lem size 0 xs ys (omega arith) (omega arith) in
      let (w', run', (len', inside', before', after')) =
        product_loop_lem size 0 x ys (omega arith) in
      (
        (
          w,
          run,
          len,
          λ i a b below read held.
              inside i b (omega arith) (omega arith) held ∙ ap (λ o. some (minus_at o b)) read,
          λ i above. after i (omega arith),
        ),
        (
          w',
          run',
          len',
          λ i b below held. inside' i b (omega arith) (omega arith) held,
          λ i above. after' i (omega arith),
        ),
      )
