-- ===== src/MultichannelMeters/References.antt =====
-- The meters that the components of a row refer to, through any sequence of calls.
use mathlib.Core.Path.{subst}
use mathlib.Core.Option.{some-injective}
use fbutils.Prelude.{
  ℕ, ◌≡◌, refl, sym, ap, ◌∙◌, Option, some, none, arith, length, get_elem?, or_else,
  lt-length_of_get_elem?, ℕ_discrete, ==_refl, length-map, before-map,
}
use fbutils.Juce.{Text}
use fbutils.MultichannelMeters.{
  SimpleMeterComponent, MultichannelMeters, put_component, update_num_meters, update_labels,
  timer_callback, component_timer_callback, new_meters, new_component, set_foreground_colour,
}
use fbutils.MultichannelMeters.Growth.{added}
use fbutils.MultichannelMeters.Rows.{update_num_meters_lem, length-each_from, before-each}

-- The states to which the methods lead, with the array that the caller gives: always the same one, except
-- that it may give another after a call with `nullptr` and 0.
pub data Reach : ℕ → MultichannelMeters → Type 0 where
  constructed : (array width : ℕ) → Reach array (new_meters width)
  updated :
      (array n : ℕ) (m : MultichannelMeters)
      → Reach array m
      → Reach array (update_num_meters array n m)
  changed :
      (array other null : ℕ) (m : MultichannelMeters)
      → Reach array m
      → Reach other (update_num_meters null 0 m)
  labelled :
      (array : ℕ) (text_at : ℕ → Text) (m : MultichannelMeters)
      → Reach array m
      → Reach array (update_labels text_at m)
  ticked : (array : ℕ) (m : MultichannelMeters) → Reach array m → Reach array (timer_callback m)

-- There are as many labels as components, and component `i` shows the meter at index `i` of the array.
abbrev pub IsRow : ℕ → MultichannelMeters → Type 0
IsRow array m =
    (length m.labels ≡ length m.components)
    × ((i : ℕ) (c : SimpleMeterComponent)
        → get_elem? m.components i ≡ some c
        → c.simple_meter ≡ (array, i))

added_or_kept :
    (array i : ℕ) (o : Option SimpleMeterComponent)
    → ((c : SimpleMeterComponent) → o ≡ some c → c.simple_meter ≡ (array, i))
    → (or_else o (added array i)).simple_meter ≡ (array, i)
unfolding added new_component set_foreground_colour
added_or_kept array i none refers = refl
added_or_kept array i (some c) refers = refers c refl

put_component-meter :
    (width n i : ℕ) (c : SimpleMeterComponent)
    → (put_component width n i c).simple_meter ≡ c.simple_meter
unfolding put_component
put_component-meter width n i c = refl

update_num_meters-same :
    (array n : ℕ) (m : MultichannelMeters)
    → length m.components ≡ n
    → update_num_meters array n m ≡ m
unfolding update_num_meters
update_num_meters-same array n m same = rw (sym same) (rw (==_refl (length m.components)) refl)

update_num_meters-IsRow :
    (array n : ℕ) (m : MultichannelMeters)
    → IsRow array m
    → IsRow array (update_num_meters array n m)
update_num_meters-IsRow array n m row = elim (ℕ_discrete (length m.components) n) [
  | yes same ↦ subst (IsRow array) (sym (update_num_meters-same array n m same)) row
  | no differ ↦
      let (width, len, lens, held) = update_num_meters_lem array n m row.0 differ in
      (
        lens ∙ sym len,
        λ i c at_i.
            let below = lt-length_of_get_elem? (update_num_meters array n m).components i at_i in
            ap (λ d. d.simple_meter)
              (some-injective _ _ (sym at_i ∙ (held i (omega (arith, len, below))).0))
            ∙ put_component-meter m.width n i (or_else (get_elem? m.components i) (added array i))
            ∙ added_or_kept array i (get_elem? m.components i) (row.1 i),
      )
]

emptied-IsRow :
    (array other null : ℕ) (m : MultichannelMeters)
    → IsRow array m
    → IsRow other (update_num_meters null 0 m)
emptied-IsRow array other null m row = elim (ℕ_discrete (length m.components) 0) [
  | yes same ↦
      subst (IsRow other) (sym (update_num_meters-same null 0 m same))
        (row.0, λ i c at_i. absurd (omega (arith, lt-length_of_get_elem? m.components i at_i)))
  | no differ ↦
      let (width, len, lens, held) = update_num_meters_lem null 0 m row.0 differ in
      (
        lens ∙ sym len,
        λ i c at_i. absurd (
            omega
              (arith, len, lt-length_of_get_elem? (update_num_meters null 0 m).components i at_i)),
      )
]

update_labels-IsRow :
    (array : ℕ) (text_at : ℕ → Text) (m : MultichannelMeters)
    → IsRow array m
    → IsRow array (update_labels text_at m)
unfolding update_labels
update_labels-IsRow array text_at m (same, refers) = (
  length-each_from _ 0 m.labels ∙ same ∙ sym (length-each_from _ 0 m.components),
  λ i c at_i.
      let (before, held, e) = before-each _ m.components i at_i in
      ap (λ d. d.simple_meter) (sym e) ∙ refers i before held,
)

timer_callback-IsRow :
    (array : ℕ) (m : MultichannelMeters) → IsRow array m → IsRow array (timer_callback m)
unfolding timer_callback component_timer_callback
timer_callback-IsRow array m (same, refers) = (
  same ∙ sym (length-map m.components component_timer_callback),
  λ i c at_i.
      let (before, held, e) = before-map component_timer_callback m.components i at_i in
      ap (λ d. d.simple_meter) (sym e) ∙ refers i before held,
)

-- Whatever the calls, there are as many labels as components, and component `i` shows the meter at index
-- `i` of the array that the caller gives.
pub Reach-IsRow : (array : ℕ) (m : MultichannelMeters) → Reach array m → IsRow array m
Reach-IsRow _ _ (constructed array width) = (refl, λ i c at_i. absurd cc)
Reach-IsRow _ _ (updated array n before r) =
    update_num_meters-IsRow array n before (Reach-IsRow array before r)
Reach-IsRow _ _ (changed from array null before r) =
    emptied-IsRow from array null before (Reach-IsRow from before r)
Reach-IsRow _ _ (labelled array text_at before r) =
    update_labels-IsRow array text_at before (Reach-IsRow array before r)
Reach-IsRow _ _ (ticked array before r) =
    timer_callback-IsRow array before (Reach-IsRow array before r)
