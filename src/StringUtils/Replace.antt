-- ===== src/StringUtils/Replace.antt =====
-- `find_and_replace`: what it returns, and where it does not return.
use mathlib.Core.List.{append_assoc}
use fbutils.Prelude.{
  ℕ, zero, suc, ◌+◌, ◌≤◌, ◌<◌, ◌≡◌, refl, ◌∙◌, ap, none, some, List, [], ◌∷◌, ◌++◌, take, drop,
  length, length-append, arith,
}
use fbutils.StringUtils.{index_of, find, replace, replace_loop, find_and_replace}
use fbutils.StringUtils.Search.{
  HasAt, Found, absent, at, index_of-Found, drop-append, take-append, find-append, find_rest,
}

-- The result of replacing, from left to right, each occurrence of `what` that does not overlap one
-- before it.
pub data Replaced (what by : List ℕ) : List ℕ → List ℕ → Type 0 where
  kept : {s t : List ℕ} → ((j : ℕ) → ¬ HasAt what s j) → t ≡ s → Replaced what by s t
  replaced :
      {s t : List ℕ} (pre post rest : List ℕ)
      → s ≡ pre ++ (what ++ post)
      → ((j : ℕ) → j < length pre → ¬ HasAt what s j)
      → Replaced what by post rest
      → t ≡ pre ++ (by ++ rest)
      → Replaced what by s t

drop_both :
    (front what post : List ℕ) → drop (length front + length what) (front ++ (what ++ post)) ≡ post
drop_both front what post =
    rw (← length-append front what, ← append_assoc) (drop-append (front ++ what) post)

replace-append :
    (front what post by : List ℕ)
    → replace (front ++ (what ++ post)) (length front) (length what) by ≡ front ++ (by ++ post)
unfolding replace
replace-append front what post by = rw (take-append front (what ++ post), drop_both front what post)

module _ (what by : List ℕ) (rounds : ℕ) (s : List ℕ) (i : ℕ) where
  loop_ends : find s what i ≡ none → replace_loop (suc rounds) what by s i ≡ some s
  unfolding replace_loop
  loop_ends e = ground arith

  loop_goes_on :
      (k : ℕ)
      → find s what i ≡ some k
      → replace_loop (suc rounds) what by s i
        ≡ replace_loop rounds what by (replace s k (length what) by) (k + length by)
  unfolding replace_loop
  loop_goes_on k e = ground arith

module _ (what by : List ℕ) (some_chars : 0 < length what) where
  Result : ℕ → List ℕ → List ℕ → Type 0
  Result rounds done rest =
      (t : List ℕ) × (replace_loop rounds what by (done ++ rest) (length done) ≡ some (done ++ t))
      × Replaced what by rest t

  -- One round of the loop, at an occurrence.
  replace_round :
      (rounds : ℕ) (done rest pre post : List ℕ)
      → index_of what rest ≡ some (length pre)
      → rest ≡ pre ++ (what ++ post)
      → replace_loop (suc rounds) what by (done ++ rest) (length done)
        ≡ replace_loop rounds what by ((done ++ (pre ++ by)) ++ post) (length (done ++ (pre ++ by)))
  replace_round rounds done rest pre post e q =
      loop_goes_on what by rounds (done ++ rest) (length done) _ (find_rest done rest what pre e)
      ∙ rw (new_text, new_place)
    where
      new_text :
          replace (done ++ rest) (length (done ++ pre)) (length what) by
          ≡ (done ++ (pre ++ by)) ++ post
      new_text =
          rw (q, ← append_assoc done pre (what ++ post))
            (replace-append (done ++ pre) what post by ∙ simp append_assoc)

      new_place : length (done ++ pre) + length by ≡ length (done ++ (pre ++ by))
      new_place =
          omega
            (arith, length-append done pre, length-append done (pre ++ by), length-append pre by)

  replace_loop_lem :
      (rounds : ℕ) (done rest : List ℕ) → length rest < rounds → Result rounds done rest
  unfolding Result
  replace_loop_lem zero done rest h = absurd (omega arith)
  replace_loop_lem (suc rounds) done rest h =
      round (index_of-Found what rest)
        (λ pre post. replace_loop_lem rounds (done ++ (pre ++ by)) post)
    where
      round :
          Found what rest
          → ((pre post : List ℕ) → length post < rounds → Result rounds (done ++ (pre ++ by)) post)
          → Result (suc rounds) done rest
      round (absent e n) ih = (
        rest,
        loop_ends what by rounds (done ++ rest) (length done) (rw (find-append done rest what, e)),
        kept n refl,
      )
      round (at pre post e q n) ih =
          let (t, l, r) = ih pre post (
            omega
              (arith, ap length q, length-append pre (what ++ post), length-append what post)) in
          (
            pre ++ (by ++ t),
            replace_round rounds done rest pre post e q ∙ l ∙ simp append_assoc,
            replaced pre post t q n r refl,
          )

-- `find_and_replace` returns for every text and every `find` with a character in it, within as many
-- rounds as the text has characters and one more; it returns the text with each occurrence, from left
-- to right and none overlapping one before it, replaced, and never looks into what it has put in.
pub find_and_replace_lem :
    (s what by : List ℕ) (rounds : ℕ)
    → 0 < length what
    → length s < rounds
    → (t : List ℕ) × (find_and_replace rounds s what by ≡ some t) × Replaced what by s t
unfolding find_and_replace Result
find_and_replace_lem s what by rounds some_chars enough =
    replace_loop_lem what by some_chars rounds [] s enough

length-take_le : (i : ℕ) (s : List ℕ) → i ≤ length s → length (take i s) ≡ i
length-take_le zero s h = refl
length-take_le (suc i) [] h = absurd (omega arith)
length-take_le (suc i) (x ∷ s) h = omega (arith, length-take_le i s)

-- An empty `find` is found at once, wherever the search begins.
pub find-empty : (s : List ℕ) (i : ℕ) → i ≤ length s → find s [] i ≡ some i
unfolding find index_of
find-empty s i h = let here = index_of-empty (drop i s) in ground (arith, here)
  where
    index_of-empty : (s : List ℕ) → index_of [] s ≡ some 0
    index_of-empty [] = refl
    index_of-empty (x ∷ s) = refl

-- The place stays inside the text, which grows with it.
place_inside : (s by : List ℕ) (i : ℕ) → i ≤ length s → i + length by ≤ length (replace s i 0 by)
unfolding replace
place_inside s by i h = omega (
  arith,
  length-take_le i s h,
  length-append (take i s) (by ++ drop (i + 0) s),
  length-append by (drop (i + 0) s),
)

replace_loop-empty :
    (rounds : ℕ) (by s : List ℕ) (i : ℕ) → i ≤ length s → replace_loop rounds [] by s i ≡ none
replace_loop-empty zero by s i h = unfold replace_loop in refl
replace_loop-empty (suc rounds) by s i h =
    loop_goes_on [] by rounds s i i (find-empty s i h)
    ∙ replace_loop-empty rounds by (replace s i 0 by) (i + length by) (place_inside s by i h)

-- Where `find` is the empty string, the loop does not end: no number of rounds is enough.
find_and_replace-empty : (s by : List ℕ) (rounds : ℕ) → find_and_replace rounds s [] by ≡ none
unfolding find_and_replace
find_and_replace-empty s by rounds = replace_loop-empty rounds by s 0 (omega arith)
