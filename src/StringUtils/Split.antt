-- ===== src/StringUtils/Split.antt =====
-- `string_split` at a string.
use mathlib.Core.Path.{subst, ap₂}
use mathlib.Core.List.{append_assoc}
use fbutils.Prelude.{
  ℕ, zero, suc, ◌+◌, ◌-◌, ◌≤◌, ◌<◌, ◌≡◌, refl, sym, ◌∙◌, ap, Option, none, some, List, [], ◌∷◌,
  ◌++◌, drop, length, length-append, arith, dec_lt,
}
use fbutils.StringUtils.{
  index_of, find, substr, substr_from, strings, out_of_range, push, split_loop, string_split,
}
use fbutils.StringUtils.Search.{
  HasAt, Found, absent, at, index_of-Found, drop-append, take-append, find-append, find_rest,
}
use fbutils.StringUtils.Replace.{find-empty}

-- The strings with `sep` between them.
abbrev pub join : List ℕ → List (List ℕ) → List ℕ
join sep [] = []
join sep (l ∷ []) = l
join sep (l ∷ m ∷ ls) = l ++ (sep ++ join sep (m ∷ ls))

-- How the loop cuts a text: at the first delimiter, of which it skips one character.
pub data Cut (d : ℕ) (ds : List ℕ) : List ℕ → List (List ℕ) → Type 0 where
  last : {s : List ℕ} → ((j : ℕ) → ¬ HasAt (d ∷ ds) s j) → Cut d ds s (s ∷ [])
  cut :
      {s : List ℕ} {ls : List (List ℕ)} (pre post l : List ℕ)
      → s ≡ pre ++ ((d ∷ ds) ++ post)
      → ((j : ℕ) → j < length pre → ¬ HasAt (d ∷ ds) s j)
      → Cut d ds (ds ++ post) ls
      → l ≡ pre
      → Cut d ds s (l ∷ ls)

module _ (delimiter : List ℕ) (rounds : ℕ) (s : List ℕ) (prev : ℕ) where
  loop_ends :
      find s delimiter prev ≡ none
      → split_loop (suc rounds) s delimiter prev ≡ push (substr_from s prev) (strings [])
  unfolding split_loop
  loop_ends e = ground arith

  loop_goes_on :
      (k : ℕ)
      → find s delimiter prev ≡ some k
      → split_loop (suc rounds) s delimiter prev
        ≡ push (substr s prev (k - prev)) (split_loop rounds s delimiter (k + 1))
  unfolding split_loop
  loop_goes_on k e = ground arith

substr_rest :
    (done pre tail : List ℕ)
    → substr (done ++ (pre ++ tail)) (length done) (length (done ++ pre) - length done) ≡ some pre
unfolding substr
substr_rest done pre tail =
    let size : length (done ++ pre) - length done ≡ length pre =
      omega (arith, length-append done pre) in
    rw (size, drop-append done (pre ++ tail), take-append pre tail)
      (ground (arith, length-append done (pre ++ tail)))

substr_from_rest : (done rest : List ℕ) → substr_from (done ++ rest) (length done) ≡ some rest
unfolding substr_from
substr_from_rest done rest = rw (drop-append done rest) (ground (arith, length-append done rest))

module _ (d : ℕ) (ds : List ℕ) where
  Result : ℕ → List ℕ → List ℕ → Type 0
  Result rounds done rest =
      (ls : List (List ℕ)) × (split_loop rounds (done ++ rest) (d ∷ ds) (length done) ≡ strings ls)
      × Cut d ds rest ls

  -- One round, at a delimiter: the next round begins behind its first character.
  split_round :
      (rounds : ℕ) (done rest pre post : List ℕ)
      → index_of (d ∷ ds) rest ≡ some (length pre)
      → rest ≡ pre ++ ((d ∷ ds) ++ post)
      → split_loop (suc rounds) (done ++ rest) (d ∷ ds) (length done)
        ≡ push (some pre) (
            split_loop rounds
              ((done ++ (pre ++ d ∷ [])) ++ (ds ++ post))
              (d ∷ ds)
              (length (done ++ (pre ++ d ∷ []))))
  split_round rounds done rest pre post e q =
      loop_goes_on (d ∷ ds) rounds (done ++ rest) (length done) _
        (find_rest done rest (d ∷ ds) pre e)
      ∙ rw (piece, same_text, next_place)
    where
      piece : substr (done ++ rest) (length done) (length (done ++ pre) - length done) ≡ some pre
      piece = rw q (substr_rest done pre ((d ∷ ds) ++ post))

      same_text : done ++ rest ≡ (done ++ (pre ++ d ∷ [])) ++ (ds ++ post)
      same_text = rw q (simp append_assoc)

      next_place : length (done ++ pre) + 1 ≡ length (done ++ (pre ++ d ∷ []))
      next_place = omega (
        arith,
        length-append done pre,
        length-append done (pre ++ d ∷ []),
        length-append pre (d ∷ []),
      )

  split_loop_lem :
      (rounds : ℕ) (done rest : List ℕ) → length rest < rounds → Result rounds done rest
  unfolding Result
  split_loop_lem zero done rest h = absurd (omega arith)
  split_loop_lem (suc rounds) done rest h =
      round (index_of-Found (d ∷ ds) rest)
        (λ pre post. split_loop_lem rounds (done ++ (pre ++ d ∷ [])) (ds ++ post))
    where
      round :
          Found (d ∷ ds) rest
          → ((pre post : List ℕ)
              → length (ds ++ post) < rounds
              → Result rounds (done ++ (pre ++ d ∷ [])) (ds ++ post))
          → Result (suc rounds) done rest
      round (absent e n) ih = (
        rest ∷ [],
        loop_ends (d ∷ ds) rounds (done ++ rest) (length done)
              (rw (find-append done rest (d ∷ ds), e))
            ∙ rw (substr_from_rest done rest),
        last n,
      )
      round (at pre post e q n) ih =
          let (ls, l, c) =
            ih pre post (omega (arith, ap length q, length-append pre ((d ∷ ds) ++ post))) in
          (pre ∷ ls, split_round rounds done rest pre post e q ∙ rw l, cut pre post pre q n c refl)

  join-cons :
      {s : List ℕ} {ls : List (List ℕ)} (sep l : List ℕ)
      → Cut d ds s ls
      → join sep (l ∷ ls) ≡ l ++ (sep ++ join sep ls)
  join-cons sep l (last n) = refl
  join-cons sep l (cut pre post m q n c e) = refl

  Cut-join : {s : List ℕ} {ls : List (List ℕ)} → Cut d ds s ls → join (d ∷ []) ls ≡ s
  Cut-join (last n) = refl
  Cut-join {s} (cut {ls = ls} pre post l q n c e) =
      join-cons (d ∷ []) l c ∙ ap₂ (λ a b. a ++ (d ∷ b)) e (Cut-join c) ∙ sym q

-- `string_split` at a string with a character in it returns, within as many rounds as the text has
-- characters and one more: it cuts the text at its first delimiter and goes on behind the first
-- character of that; and the strings with that one character between them are the text again.
pub string_split_lem :
    (s : List ℕ) (d : ℕ) (ds : List ℕ) (rounds : ℕ)
    → length s < rounds
    → (ls : List (List ℕ)) × (string_split rounds s (d ∷ ds) ≡ strings ls)
      × Cut d ds s ls
      × (join (d ∷ []) ls ≡ s)
unfolding string_split Result
string_split_lem s d ds rounds h =
    let (ls, e, c) = split_loop_lem d ds rounds [] s h in (ls, e, c, Cut-join d ds c)

strings-injective : {ls ms : List (List ℕ)} → strings ls ≡ strings ms → ls ≡ ms
strings-injective h = ground arith

join_longer :
    (d e : ℕ) (ds l m : List ℕ) (ls : List (List ℕ))
    → length (join (d ∷ []) (l ∷ m ∷ ls)) < length (join (d ∷ e ∷ ds) (l ∷ m ∷ ls))
join_longer d e ds l m [] =
    omega (arith, length-append l (d ∷ m), length-append l (d ∷ e ∷ ds ++ m), length-append ds m)
join_longer d e ds l m (k ∷ ls) =
    let short = join (d ∷ []) (m ∷ k ∷ ls) in
    let long = join (d ∷ e ∷ ds) (m ∷ k ∷ ls) in
    omega (
      arith,
      length-append l (d ∷ short),
      length-append l (d ∷ e ∷ ds ++ long),
      length-append ds long,
      join_longer d e ds m k ls,
    )

Cut-long :
    {s : List ℕ} {ls : List (List ℕ)} (d e : ℕ) (ds : List ℕ)
    → Cut d (e ∷ ds) s ls
    → length (join (d ∷ []) ls) ≡ length (join (d ∷ e ∷ ds) ls)
    → (j : ℕ) → ¬ HasAt (d ∷ e ∷ ds) s j
Cut-long d e ds (last n) h = n
Cut-long d e ds (cut pre post l q n (last k) r) h =
    absurd (omega (arith, join_longer d e ds l _ []))
Cut-long d e ds (cut pre post l q n (cut {ls = ls} pre' post' m q' n' c r') r) h =
    absurd (omega (arith, join_longer d e ds l m ls))

not_HasAt-index_of : (what s : List ℕ) → ((j : ℕ) → ¬ HasAt what s j) → index_of what s ≡ none
not_HasAt-index_of what s n = not_found (index_of-Found what s)
  where
    not_found : Found what s → index_of what s ≡ none
    not_found (absent e h) = e
    not_found (at pre post e q h) =
        absurd (n (length pre) (post, ap (drop (length pre)) q ∙ drop-append pre (what ++ post)))

-- With a delimiter of two characters or more, the strings with the delimiter between them are the text
-- only where the text has no delimiter in it.
string_split-long :
    (s : List ℕ) (d e : ℕ) (ds : List ℕ) (rounds : ℕ) (ls : List (List ℕ))
    → length s < rounds
    → string_split rounds s (d ∷ e ∷ ds) ≡ strings ls
    → join (d ∷ e ∷ ds) ls ≡ s
    → index_of (d ∷ e ∷ ds) s ≡ none
string_split-long s d e ds rounds ls h q k =
    let (ls', q', c, j) = string_split_lem s d (e ∷ ds) rounds h in
    let same : ls' ≡ ls = strings-injective (sym q' ∙ q) in
    let c' : Cut d (e ∷ ds) s ls = subst (Cut d (e ∷ ds) s) same c in
    not_HasAt-index_of (d ∷ e ∷ ds) s
      (Cut-long d e ds c' (ap length (Cut-join d (e ∷ ds) c' ∙ sym k)))

push-out_of_range : (o : Option (List ℕ)) → push o out_of_range ≡ out_of_range
push-out_of_range none = refl
push-out_of_range (some l) = refl

find_past : (s : List ℕ) (i : ℕ) → length s < i → (find s [] i ≡ none) × (substr_from s i ≡ none)
unfolding find substr_from
find_past s i h = ground arith

split_loop-empty :
    (rounds : ℕ) (s : List ℕ) (prev : ℕ)
    → prev ≤ length s + 1
    → length s + 1 < prev + rounds
    → split_loop rounds s [] prev ≡ out_of_range
split_loop-empty zero s prev b h = absurd (omega arith)
split_loop-empty (suc rounds) s prev b h = elim (dec_lt (length s) prev) [
  | yes past ↦ let (f, g) = find_past s prev past in loop_ends [] rounds s prev f ∙ rw g
  | no inside ↦
      loop_goes_on [] rounds s prev prev (find-empty s prev (omega arith))
      ∙ rw (split_loop-empty rounds s (prev + 1) (omega arith) (omega arith))
          (push-out_of_range (substr s prev (prev - prev)))
]

-- With the empty delimiter `string_split` always ends in the exception of `substr`, within as many
-- rounds as the text has characters and two more.
string_split-empty :
    (s : List ℕ) (rounds : ℕ) → length s + 1 < rounds → string_split rounds s [] ≡ out_of_range
unfolding string_split
string_split-empty s rounds h = split_loop-empty rounds s 0 (omega arith) (omega arith)
