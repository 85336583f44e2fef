-- ===== src/Base64/RoundTrip.antt =====
-- What `toBase64url` makes is safe in a URL, and the functions that read it give back what went in.
use fbutils.Prelude.{
  ℕ, zero, suc, ◌+◌, ◌%◌, ◌≤◌, ◌≡◌, refl, sym, ◌∙◌, ap, arith, Bool, true, ◌&&◌, ◌||◌, ◌==◌, leb,
  none, some, [], ◌∷◌, ◌++◌, map, replicate, take, length, length-map, get_elem?,
}
use mathlib.Core.List.{append-nil}
use fbutils.Juce.{Juce, IsJuce, Text, Bytes, swap, without}
use fbutils.Base64.{
  to_base64url, from_base64, from_base64url, binary_from_base64, binary_from_base64url, padding,
  completed,
}

-- A letter or a digit
abbrev pub is_alnum : ℕ → Bool
is_alnum c = (leb 97 c && leb c 122) || ((leb 65 c && leb c 90) || (leb 48 c && leb c 57))

abbrev pub AllIn : (ℕ → Bool) → Text → Type 0
AllIn p s = (i c : ℕ) → get_elem? s i ≡ some c → p c ≡ true

-- Base64 as RFC 4648 has it: the alphabet, then up to two `=` that fill the last group of four
pub record IsBase64 (t : Text) : Type 0 where
  pub body : Text
  pub pads : ℕ
  pub parts : t ≡ body ++ replicate pads 61
  pub few : pads ≤ 2
  pub fills : (length body + pads) % 4 ≡ 0
  pub alphabet : AllIn (λ c. is_alnum c || ((c == 43) || (c == 47))) body

abbrev to_url : ℕ → ℕ
to_url = swap (43 ∷ 47 ∷ []) (45 ∷ 95 ∷ [])

abbrev of_url : ℕ → ℕ
of_url = swap (45 ∷ 95 ∷ []) (43 ∷ 47 ∷ [])

without_pads : (n : ℕ) → without (61 ∷ []) (map to_url (replicate n 61)) ≡ []
without_pads zero = refl
without_pads (suc n) = without_pads n

url_body :
    (body tail : Text)
    → AllIn (λ c. is_alnum c || ((c == 43) || (c == 47))) body
    → without (61 ∷ []) (map to_url (body ++ tail))
      ≡ map to_url body ++ without (61 ∷ []) (map to_url tail)
url_body [] tail h = refl
url_body (c ∷ body) tail h =
    let first = h 0 c refl in ground (arith, url_body body tail (λ i. h (suc i)))

back :
    (body : Text)
    → AllIn (λ c. is_alnum c || ((c == 43) || (c == 47))) body
    → map of_url (map to_url body) ≡ body
back [] h = refl
back (c ∷ body) h =
    let first = h 0 c refl in
    let same : of_url (to_url c) ≡ c = ground arith in cc (same, back body (λ i. h (suc i)))

filled :
    (n pads : ℕ)
    → pads ≤ 2
    → (n + pads) % 4 ≡ 0
    → take {A = ℕ} (padding (n % 4)) (61 ∷ 61 ∷ 61 ∷ []) ≡ replicate pads 61
unfolding padding
filled n zero few h = rw (h' n h) refl
  where
    h' : (n : ℕ) → (n + 0) % 4 ≡ 0 → n % 4 ≡ 0
    h' n h = omega arith
filled n (suc zero) few h = let e : n % 4 ≡ 3 = omega arith in rw e refl
filled n (suc (suc zero)) few h = let e : n % 4 ≡ 2 = omega arith in rw e refl
filled n (suc (suc (suc pads))) few h = absurd (omega arith)

AllIn-map :
    (p q : ℕ → Bool) (f : ℕ → ℕ) (s : Text)
    → ((c : ℕ) → p c ≡ true → q (f c) ≡ true)
    → AllIn p s
    → AllIn q (map f s)
AllIn-map p q f [] step h i c held = cc
AllIn-map p q f (x ∷ s) step h zero c held =
    ap (λ o. elim o [ none ↦ true | some z ↦ q z ]) (sym held) ∙ step x (h 0 x refl)
AllIn-map p q f (x ∷ s) step h (suc i) c held = AllIn-map p q f s step (λ k. h (suc k)) i c held

module _ (juce : Juce) (documented : IsJuce juce) where
  url_text : (s : Text) (b : IsBase64 (juce.to_base64 s)) → to_base64url juce s ≡ map to_url b.body
  unfolding to_base64url
  url_text s b =
      rw (documented.removes, documented.replaces, b.parts)
        (url_body b.body (replicate b.pads 61) b.alphabet
          ∙ rw (without_pads b.pads, append-nil (map to_url b.body)))

  completed-url :
      (s : Text)
      → IsBase64 (juce.to_base64 s)
      → completed juce (to_base64url juce s) ≡ juce.to_base64 s
  unfolding completed
  completed-url s b =
      rw
        (
          url_text s b,
          documented.appends,
          documented.replaces,
          length-map b.body to_url,
          back b.body b.alphabet,
          filled (length b.body) b.pads b.few b.fills,
        )
        (sym b.parts)

  -- With the methods of `String` as JUCE documents them: where `Base64::toBase64` of a text is Base64,
  -- `toBase64url` of it has only letters, digits, `-` and `_`, and what the functions complete it to is that
  -- Base64 again; so, where `Base64` decodes it to a block, `binaryFromBase64url` gives that block, and
  -- `fromBase64url` the text, where that is the text of the block.
  pub from_base64url-to_base64url :
      (s : Text) (block : Bytes)
      → IsBase64 (juce.to_base64 s)
      → juce.convert_from_base64 (juce.to_base64 s) ≡ (true, block)
      → juce.to_string block ≡ s
      → AllIn (λ c. is_alnum c || ((c == 45) || (c == 95))) (to_base64url juce s)
        × (completed juce (to_base64url juce s) ≡ juce.to_base64 s)
        × (binary_from_base64url juce (to_base64url juce s) ≡ some block)
        × (from_base64url juce (to_base64url juce s) ≡ some s)
  unfolding binary_from_base64url from_base64url binary_from_base64 from_base64
  from_base64url-to_base64url s block b decodes reads = (
    rw (url_text s b) (
        AllIn-map (λ c. is_alnum c || ((c == 43) || (c == 47)))
          (λ c. is_alnum c || ((c == 45) || (c == 95))) to_url b.body (λ c h. ground arith)
          b.alphabet),
    completed-url s b,
    rw (completed-url s b, decodes) refl,
    rw (completed-url s b, decodes, reads) refl,
  )

  -- For a text whose length is 1 more than a multiple of 4, which no Base64 for URLs has, three `=` are
  -- added.
  completed_one_over :
      (s : Text) → length s % 4 ≡ 1 → completed juce s ≡ map of_url s ++ 61 ∷ 61 ∷ 61 ∷ []
  unfolding completed padding
  completed_one_over s h = rw (documented.appends, documented.replaces, h) refl
