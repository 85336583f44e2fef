-- ===== src/MultichannelMeters.antt =====
-- include/fbu/multichannel_meters.hpp, with the component of include/fbu/simple_meter.cpp: a row of meters
-- and of the labels below them. What JUCE draws of them, and the height of a bar, which SimpleMeter.antt
-- has, are left out.
--
-- A count of channels is an `int` of 0 at least. A pointer into an array of meters is the array's address
-- and the index; an `int` is its 32 bits.
pub mod Growth
pub mod Rows
pub mod References
mod Tests
use fbutils.Prelude.{
  ℕ, zero, suc, ◌+◌, ◌-◌, ◌*◌, ◌/◌, ◌%◌, ◌^◌, Bool, true, false, List, [], ◌∷◌, ◌++◌, map, length,
  take, ltb, ◌==◌, if◌then◌else◌,
}
use fbutils.Juce.{Text}

-- What `setBounds` takes
pub record Rectangle : Type 0 where
  pub x : ℕ
  pub y : ℕ
  pub width : ℕ
  pub height : ℕ

pub data Colour : Type 0 where
  light_green : Colour
  black : Colour
  grey : Colour

-- `SimpleMeterComponent`, its base classes' bounds and tooltip, and whether it waits to be painted
pub record SimpleMeterComponent : Type 0 where
  pub simple_meter : ℕ × ℕ
  pub foreground : Colour
  pub background : Colour
  pub bounds : Rectangle
  pub tooltip : Text
  pub waits : Bool

pub record Label : Type 0 where
  pub bounds : Rectangle
  pub text : Text
  pub tooltip : Text

-- `MultichannelMeters`, and what `getWidth` gives
pub record MultichannelMeters : Type 0 where
  pub width : ℕ
  pub components : List SimpleMeterComponent
  pub labels : List Label

-- The constructor of `SimpleMeterComponent`
unfoldable pub new_component : ℕ × ℕ → SimpleMeterComponent
new_component meter = record {
  simple_meter = meter;
  foreground = light_green;
  background = black;
  bounds = record { x = 0; y = 0; width = 5; height = 144 };
  tooltip = [];
  waits = false;
}

unfoldable pub set_foreground_colour : Colour → SimpleMeterComponent → SimpleMeterComponent
set_foreground_colour colour c = record c { foreground = colour }

abbrev pub new_label : Label
new_label = record {
  bounds = record { x = 0; y = 0; width = 0; height = 0 };
  text = [];
  tooltip = [];
}

-- The body of the first loop of `updateNumMeters`
unfoldable pub add_meter : ℕ → MultichannelMeters → MultichannelMeters
unfolding new_component set_foreground_colour
add_meter array m = record m {
  components =
      m.components ++ set_foreground_colour grey (new_component (array, length m.components)) ∷ [];
  labels = m.labels ++ new_label ∷ [];
}

-- The body of the second loop
unfoldable pub remove_meter : MultichannelMeters → MultichannelMeters
remove_meter m = record m {
  components = take (length m.components - 1) m.components;
  labels = take (length m.labels - 1) m.labels;
}

-- The first loop, in at most `fuel` turns
unfoldable pub growth_loop : ℕ → ℕ → ℕ → MultichannelMeters → MultichannelMeters
unfolding add_meter
growth_loop zero array n m = m
growth_loop (suc fuel) array n m =
    let rest = growth_loop fuel array n (add_meter array m) in
    if ltb (length m.components) n then rest else m

-- The second loop
unfoldable pub shrink_loop : ℕ → ℕ → MultichannelMeters → MultichannelMeters
unfolding remove_meter
shrink_loop zero n m = m
shrink_loop (suc fuel) n m =
    let rest = shrink_loop fuel n (remove_meter m) in
    if ltb n (length m.components) then rest else m

-- A loop over an array with a counter `i`
unfoldable pub each_from {ℓ} : {A : Type ℓ} → (ℕ → A → A) → ℕ → List A → List A
each_from f i [] = []
each_from f i (a ∷ xs) = f i a ∷ each_from f (i + 1) xs

-- `getWidth()/2 - pNumChannels * 5 + shift + i * 10`
unfoldable pub place_of : ℕ → ℕ → ℕ → ℕ → ℕ
place_of width n shift i = (width / 2 + (2 ^ 32 - n * 5 % 2 ^ 32) + shift + i * 10) % 2 ^ 32

unfoldable pub put_component : ℕ → ℕ → ℕ → SimpleMeterComponent → SimpleMeterComponent
unfolding place_of
put_component width n i c = record c {
  bounds = record { x = place_of width n 2 i; y = 0; width = 5; height = 144 / 5 };
}

unfoldable pub put_label : ℕ → ℕ → ℕ → Label → Label
unfolding place_of
put_label width n i l = record l {
  bounds = record { x = place_of width n (2 ^ 32 - 1) i; y = 144 / 5 + 4; width = 11; height = 18 };
}

-- The part of `updateNumMeters` that repositions everything
unfoldable pub reposition : ℕ → MultichannelMeters → MultichannelMeters
unfolding each_from put_component put_label
reposition n m = record m {
  components = each_from (put_component m.width n) 0 m.components;
  labels = each_from (put_label m.width n) 0 m.labels;
}

unfoldable pub update_num_meters : ℕ → ℕ → MultichannelMeters → MultichannelMeters
unfolding growth_loop shrink_loop reposition
update_num_meters array n m =
    if n == length m.components
    then m
    else let grown = growth_loop n array n m in
      reposition n (shrink_loop (length grown.components) n grown)

-- `updateLabels`, with what stands at each index of the array of labels
unfoldable pub update_labels : (ℕ → Text) → MultichannelMeters → MultichannelMeters
unfolding each_from
update_labels text_at m = record m {
  components = each_from (λ i c. record c { tooltip = text_at i }) 0 m.components;
  labels = each_from (λ i l. record l { text = text_at i; tooltip = text_at i }) 0 m.labels;
}

-- `SimpleMeterComponent::timerCallback`, which calls `repaint`
unfoldable pub component_timer_callback : SimpleMeterComponent → SimpleMeterComponent
component_timer_callback c = record c { waits = true }

unfoldable pub timer_callback : MultichannelMeters → MultichannelMeters
unfolding component_timer_callback
timer_callback m = record m { components = map component_timer_callback m.components }

abbrev pub new_meters : ℕ → MultichannelMeters
new_meters width = record { width = width; components = []; labels = [] }
