-- ===== src/Base64.antt =====
-- include/fbu/base64_utils.hpp: Base64 for URLs, around the Base64 of JUCE. `none` is an assertion that fails.
pub mod RoundTrip
mod Tests
use fbutils.Prelude.{
  ℕ, ◌%◌, Bool, true, false, ◌==◌, Option, none, some, List, [], ◌∷◌, length, if◌then◌else◌, ◌>>=◌,
}
use fbutils.Juce.{Juce, Text, Bytes}

-- The `switch` on the length
unfoldable pub padding : ℕ → ℕ
padding remainder =
    if remainder == 1 then 3 else if remainder == 2 then 2 else if remainder == 3 then 1 else 0

module _ (juce : Juce) where
  unfoldable pub to_base64url : Text → Text
  to_base64url s =
      juce.remove_characters
        (juce.replace_characters (juce.to_base64 s) (43 ∷ 47 ∷ []) (45 ∷ 95 ∷ [])) (61 ∷ [])

  unfoldable pub binary_from_base64 : Text → Option Bytes
  binary_from_base64 encoded =
      let (ok, block) = juce.convert_from_base64 encoded in if ok then some block else none

  unfoldable pub from_base64 : Text → Option Text
  from_base64 encoded =
      let (ok, block) = juce.convert_from_base64 encoded in
      if ok then some (juce.to_string block) else none

  -- `lCompleted`
  unfoldable pub completed : Text → Text
  unfolding padding
  completed s =
      juce.append (juce.replace_characters s (45 ∷ 95 ∷ []) (43 ∷ 47 ∷ [])) (61 ∷ 61 ∷ 61 ∷ [])
        (padding (length s % 4))

  unfoldable pub from_base64url : Text → Option Text
  unfolding from_base64 completed
  from_base64url s = from_base64 (completed s)

  unfoldable pub binary_from_base64url : Text → Option Bytes
  unfolding binary_from_base64 completed
  binary_from_base64url s = binary_from_base64 (completed s)
