-- ===== src/Juce.antt =====
-- The classes of JUCE that include/fbu/base64_utils.hpp and include/fbu/time_limited.hpp call: parameters
-- of the model, a text as the list of its codes and a block of memory as the list of its bytes.
use fbutils.Prelude.{ℕ, ◌≡◌, Bool, true, false, List, [], ◌∷◌, ◌++◌, map, take, if◌then◌else◌, ◌==◌}

abbrev pub Text : Type 0
Text = List ℕ

abbrev pub Bytes : Type 0
Bytes = List ℕ

pub record Juce : Type 0 where
  pub replace_characters : Text → Text → Text → Text
  pub remove_characters : Text → Text → Text
  pub append : Text → Text → ℕ → Text
  pub to_base64 : Text → Text  -- `Base64::toBase64`
  pub convert_from_base64 : Text → Bool × Bytes  -- `Base64::convertFromBase64`
  pub to_string : Bytes → Text  -- `MemoryOutputStream::toString`

-- The character at the place in `to` at which `from` has the given one
abbrev pub swap : Text → Text → ℕ → ℕ
swap [] to c = c
swap (x ∷ from) [] c = c
swap (x ∷ from) (y ∷ to) c = if c == x then y else swap from to c

abbrev pub holds : Text → ℕ → Bool
holds [] c = false
holds (x ∷ s) c = if c == x then true else holds s c

abbrev pub without : Text → Text → Text
without s [] = []
without s (c ∷ t) = let rest = without s t in if holds s c then rest else c ∷ rest

-- What JUCE documents of the methods of `String`.
pub record IsJuce (j : Juce) : Type 0 where
  pub replaces : (s from to : Text) → j.replace_characters s from to ≡ map (swap from to) s
  pub removes : (s chars : Text) → j.remove_characters s chars ≡ without chars s
  pub appends : (s t : Text) (n : ℕ) → j.append s t n ≡ s ++ take n t
