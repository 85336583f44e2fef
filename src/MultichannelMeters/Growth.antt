-- ===== src/MultichannelMeters/Growth.antt =====
-- The loops of `updateNumMeters`: the elements that they leave, and that their turns are enough.
use fbutils.Prelude.{
  ℕ, zero, suc, ◌+◌, ◌-◌, ◌≤◌, ◌<◌, ◌≡◌, refl, sym, ap, ◌∙◌, some, arith, length, get_elem?,
  or_else, or_else-push, length-push, get_elem?-or_else, length-take, get_elem?-take, ltb-false,
  lt→ltb, dec_lt,
}
use mathlib.Core.Path.{subst}
use fbutils.MultichannelMeters.{
  SimpleMeterComponent, MultichannelMeters, grey, new_component, set_foreground_colour, new_label,
  add_meter, remove_meter, growth_loop, shrink_loop,
}

-- The component that the growth adds at an index
unfoldable pub added : ℕ → ℕ → SimpleMeterComponent
unfolding new_component set_foreground_colour
added array i = set_foreground_colour grey (new_component (array, i))

-- A row of `n` meters, as which `m` is left: its own where it has them, and added ones.
abbrev pub IsRowOf : ℕ → ℕ → MultichannelMeters → MultichannelMeters → Type 0
IsRowOf array n m left =
    (left.width ≡ m.width)
    × (length left.components ≡ n)
    × (length left.labels ≡ n)
    × ((i : ℕ)
        → i < n
        → (get_elem? left.components i ≡ some (or_else (get_elem? m.components i) (added array i)))
          × (get_elem? left.labels i ≡ some (or_else (get_elem? m.labels i) new_label)))

row_itself :
    (array n : ℕ) (m : MultichannelMeters)
    → length m.labels ≡ length m.components
    → length m.components ≡ n
    → IsRowOf array n m m
row_itself array n m same len = (
  refl,
  len,
  omega arith,
  λ i below. (
    get_elem?-or_else m.components i (added array i) (omega arith),
    get_elem?-or_else m.labels i new_label (omega arith),
  ),
)

add_meter-IsRowOf :
    (array n : ℕ) (m left : MultichannelMeters)
    → length m.labels ≡ length m.components
    → IsRowOf array n (add_meter array m) left
    → IsRowOf array n m left
unfolding add_meter added
add_meter-IsRowOf array n m left same (width, len, lens, held) = (
  width,
  len,
  lens,
  λ i below. (
    (held i below).0 ∙ ap some (or_else-push (added array) m.components i),
    (held i below).1 ∙ ap some (or_else-push (λ j. new_label) m.labels i),
  ),
)

-- Where the loops stop
pub growth_loop-same :
    (fuel array n : ℕ) (m : MultichannelMeters)
    → n ≤ length m.components
    → growth_loop fuel array n m ≡ m
unfolding growth_loop
growth_loop-same zero array n m enough = refl
growth_loop-same (suc fuel) array n m enough = rw (ltb-false (length m.components) n enough) refl

pub shrink_loop-same :
    (fuel n : ℕ) (m : MultichannelMeters) → length m.components ≤ n → shrink_loop fuel n m ≡ m
unfolding shrink_loop
shrink_loop-same zero n m few = refl
shrink_loop-same (suc fuel) n m few = rw (ltb-false n (length m.components) few) refl

growth_loop-add_meter :
    (fuel array n : ℕ) (m : MultichannelMeters)
    → length m.components < n
    → growth_loop (suc fuel) array n m ≡ growth_loop fuel array n (add_meter array m)
unfolding growth_loop
growth_loop-add_meter fuel array n m less = rw (lt→ltb (length m.components) n less) refl

shrink_loop-remove_meter :
    (fuel n : ℕ) (m : MultichannelMeters)
    → n < length m.components
    → shrink_loop (suc fuel) n m ≡ shrink_loop fuel n (remove_meter m)
unfolding shrink_loop
shrink_loop-remove_meter fuel n m more = rw (lt→ltb n (length m.components) more) refl

length-add_meter :
    (array : ℕ) (m : MultichannelMeters)
    → (length (add_meter array m).components ≡ suc (length m.components))
      × (length (add_meter array m).labels ≡ suc (length m.labels))
unfolding add_meter
length-add_meter array m = (length-push m.components _, length-push m.labels _)

length-remove_meter :
    (m : MultichannelMeters)
    → (length (remove_meter m).components ≡ length m.components - 1)
      × (length (remove_meter m).labels ≡ length m.labels - 1)
unfolding remove_meter
length-remove_meter m = (
  length-take (length m.components - 1) m.components (omega arith),
  length-take (length m.labels - 1) m.labels (omega arith),
)

remove_meter-IsRowOf :
    (array n : ℕ) (m left : MultichannelMeters)
    → length m.labels ≡ length m.components
    → n < length m.components
    → IsRowOf array n (remove_meter m) left
    → IsRowOf array n m left
unfolding remove_meter
remove_meter-IsRowOf array n m left same more (width, len, lens, held) = (
  width,
  len,
  lens,
  λ i below. (
    (held i below).0
        ∙ ap (λ o. some (or_else o (added array i)))
            (get_elem?-take (length m.components - 1) i m.components (omega arith)),
    (held i below).1
        ∙ ap (λ o. some (or_else o new_label))
            (get_elem?-take (length m.labels - 1) i m.labels (omega arith)),
  ),
)

pub growth_loop-IsRowOf :
    (fuel array n : ℕ) (m : MultichannelMeters)
    → length m.labels ≡ length m.components
    → length m.components ≤ n
    → n ≤ length m.components + fuel
    → IsRowOf array n m (growth_loop fuel array n m)
growth_loop-IsRowOf zero array n m same few enough =
    subst (IsRowOf array n m) (sym (growth_loop-same zero array n m (omega arith)))
      (row_itself array n m same (omega arith))
growth_loop-IsRowOf (suc fuel) array n m same few enough = elim (dec_lt (length m.components) n) [
  | no q ↦
      subst (IsRowOf array n m) (sym (growth_loop-same (suc fuel) array n m (omega arith)))
        (row_itself array n m same (omega arith))
  | yes less ↦
      let (len, lens) = length-add_meter array m in
      subst (IsRowOf array n m) (sym (growth_loop-add_meter fuel array n m less)) (
        add_meter-IsRowOf array n m (growth_loop fuel array n (add_meter array m)) same (
          growth_loop-IsRowOf fuel array n (add_meter array m) (lens ∙ ap suc same ∙ sym len)
            (omega arith) (omega arith)))
]

pub shrink_loop-IsRowOf :
    (fuel array n : ℕ) (m : MultichannelMeters)
    → length m.labels ≡ length m.components
    → n ≤ length m.components
    → length m.components ≤ n + fuel
    → IsRowOf array n m (shrink_loop fuel n m)
shrink_loop-IsRowOf zero array n m same many enough =
    subst (IsRowOf array n m) (sym (shrink_loop-same zero n m (omega arith)))
      (row_itself array n m same (omega arith))
shrink_loop-IsRowOf (suc fuel) array n m same many enough = elim (dec_lt n (length m.components)) [
  | no q ↦
      subst (IsRowOf array n m) (sym (shrink_loop-same (suc fuel) n m (omega arith)))
        (row_itself array n m same (omega arith))
  | yes more ↦
      let (len, lens) = length-remove_meter m in
      subst (IsRowOf array n m) (sym (shrink_loop-remove_meter fuel n m more)) (
        remove_meter-IsRowOf array n m (shrink_loop fuel n (remove_meter m)) same more (
          shrink_loop-IsRowOf fuel array n (remove_meter m) (lens ∙ ap (λ k. k - 1) same ∙ sym len)
            (omega arith) (omega arith)))
]
