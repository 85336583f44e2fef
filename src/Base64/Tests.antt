-- ===== src/Base64/Tests.antt =====
-- The text "M", whose Base64 is "TQ==", through the functions for URLs.
use fbutils.Prelude.{◌≡◌, refl, arith, true, ◌||◌, ◌==◌, zero, suc, some, [], ◌∷◌, ◌++◌, map, take}
use fbutils.Juce.{Juce, IsJuce, Text, swap, without}
use fbutils.Base64.{to_base64url, from_base64url, binary_from_base64url, completed}
use fbutils.Base64.RoundTrip.{is_alnum, AllIn, IsBase64, from_base64url-to_base64url}

abbrev m_text : Text
m_text = 77 ∷ []

abbrev m_base64 : Text
m_base64 = 84 ∷ 81 ∷ 61 ∷ 61 ∷ []

abbrev strings : Juce
strings = record {
  replace_characters = λ s from to. map (swap from to) s;
  remove_characters = λ s chars. without chars s;
  append = λ s t n. s ++ take n t;
  to_base64 = λ s. m_base64;
  convert_from_base64 = λ t. (true, m_text);
  to_string = λ b. b;
}

strings-IsJuce : IsJuce strings
strings-IsJuce = record {
  replaces = λ s from to. refl;
  removes = λ s chars. refl;
  appends = λ s t n. refl;
}

two_letters : to_base64url strings m_text ≡ 84 ∷ 81 ∷ []
unfolding to_base64url
two_letters = refl

m_base64-IsBase64 : IsBase64 m_base64
m_base64-IsBase64 = record {
  body = 84 ∷ 81 ∷ [];
  pads = 2;
  parts = refl;
  few = omega arith;
  fills = refl;
  alphabet = two;
}
  where
    two : AllIn (λ c. is_alnum c || ((c == 43) || (c == 47))) (84 ∷ 81 ∷ [])
    two zero c held = ground arith
    two (suc zero) c held = ground arith
    two (suc (suc i)) c held = cc

from_base64url-to_base64url_example :
    AllIn (λ c. is_alnum c || ((c == 45) || (c == 95))) (to_base64url strings m_text)
    × (completed strings (to_base64url strings m_text) ≡ m_base64)
    × (binary_from_base64url strings (to_base64url strings m_text) ≡ some m_text)
    × (from_base64url strings (to_base64url strings m_text) ≡ some m_text)
from_base64url-to_base64url_example =
    from_base64url-to_base64url strings strings-IsJuce m_text m_text m_base64-IsBase64 refl refl
