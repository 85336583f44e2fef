-- ===== src/Tooltip.antt =====
-- include/fbu/tooltip_component.hpp: the tip that a label shows for the component under the mouse. A
-- component is its number; what the desktop and the components answer are parameters.
use fbutils.Prelude.{
  ℕ, ◌≡◌, refl, Bool, true, false, Option, none, some, [], ◌∷◌, if◌then◌else◌, ◌⊎◌, inl, inr,
  Bool-cases, Option-cases,
}
use fbutils.Juce.{Text}

-- What the code asks: whether the source is a mouse, the component under it, the tooltip of one that is a
-- `TooltipClient`, and whether another modal component blocks one
pub record Desktop : Type 0 where
  pub is_mouse : Bool
  pub component_under_mouse : Option ℕ
  pub get_tooltip : ℕ → Option Text
  pub is_blocked : ℕ → Bool

-- `TooltipComponent`: `mTooltipProvider`, and the text of the label
pub record TooltipComponent : Type 0 where
  pub tooltip_provider : Option (Option ℕ → Text)
  pub text : Text

-- The part of `getTipFor` that asks the provider
unfoldable provided : TooltipComponent → Option ℕ → Text
provided t c = elim t.tooltip_provider [ none ↦ [] | some get_tip_for ↦ get_tip_for c ]

-- The part that asks the component
unfoldable own_tip : Desktop → Option ℕ → Text
own_tip d none = []
own_tip d (some c) = elim (d.get_tooltip c) [
  | none ↦ []
  | some tip ↦ if d.is_blocked c then [] else tip
]

unfoldable or_if_empty : Text → Text → Text
or_if_empty [] other = other
or_if_empty (a ∷ s) other = a ∷ s

unfoldable get_tip_for : Desktop → TooltipComponent → Option ℕ → Text
unfolding provided own_tip or_if_empty
get_tip_for d t c = or_if_empty (provided t c) (own_tip d c)

unfoldable display_tip : Text → TooltipComponent → TooltipComponent
display_tip text t = record t { text = text }

unfoldable timer_callback : Desktop → TooltipComponent → TooltipComponent
unfolding get_tip_for display_tip
timer_callback d t =
    let comp = if d.is_mouse then d.component_under_mouse else none in
    display_tip (get_tip_for d t comp) t

own_tip-none : (d : Desktop) → own_tip d none ≡ []
unfolding own_tip
own_tip-none d = refl

own_tip-blocked : (d : Desktop) (c : ℕ) → d.is_blocked c ≡ true → own_tip d (some c) ≡ []
unfolding own_tip
own_tip-blocked d c h = elim (Option-cases (d.get_tooltip c)) [
  | inl e ↦ rw (e, own_tip) refl
  | inr (tip, e) ↦ rw (e, h, own_tip) refl
]

-- Without a provider, the label shows nothing where the source is no mouse, or no component is under it, or
-- the one that is there is blocked, whatever it showed before. A provider's tip is shown where it is not
-- empty, also for a component that is blocked.
timer_callback_lem :
    (d : Desktop) (t : TooltipComponent)
    → (t.tooltip_provider ≡ none
        → (d.is_mouse ≡ false)
          ⊎ ((d.component_under_mouse ≡ none)
              ⊎ ((c : ℕ) × (d.component_under_mouse ≡ some c) × (d.is_blocked c ≡ true)))
        → (timer_callback d t).text ≡ [])
      × ((get_tip : Option ℕ → Text) (first : ℕ) (tip : Text)
          → t.tooltip_provider ≡ some get_tip
          → get_tip (if d.is_mouse then d.component_under_mouse else none) ≡ first ∷ tip
          → (timer_callback d t).text ≡ first ∷ tip)
unfolding timer_callback get_tip_for display_tip provided or_if_empty
timer_callback_lem d t = (
  λ nobody why. rw nobody (elim why [
    | inl e ↦ rw e (own_tip-none d)
    | inr (inl e) ↦ elim (Bool-cases d.is_mouse) [
      | inl m ↦ rw (m, e) (own_tip-none d)
      | inr m ↦ rw m (own_tip-none d)
    ]
    | inr (inr (c, e, h)) ↦ elim (Bool-cases d.is_mouse) [
      | inl m ↦ rw (m, e) (own_tip-blocked d c h)
      | inr m ↦ rw m (own_tip-none d)
    ]
  ]),
  λ get_tip first tip e shows. rw (e, shows) refl,
)
