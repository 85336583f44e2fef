-- ===== src/StringUtils/Search.antt =====
-- What `find` finds.
use mathlib.Core.Option
use mathlib.Core.Path.{ap₂}
use fbutils.Prelude.{
  ℕ, zero, suc, ◌+◌, ◌<◌, ◌≡◌, inl, inr, refl, sym, ◌∙◌, ap, true, false, Bool-cases, none, some,
  List, [], ◌∷◌, ◌++◌, take, drop, length, length-append, arith,
}
use fbutils.StringUtils.{equal, index_of, find}

-- `s` has `what` at the place `j`.
abbrev pub HasAt : List ℕ → List ℕ → ℕ → Type 0
HasAt what s j = (rest : List ℕ) × (drop j s ≡ what ++ rest)

pub equal-HasAt : (what s : List ℕ) → equal what s ≡ true → (rest : List ℕ) × (s ≡ what ++ rest)
unfolding equal
equal-HasAt [] s h = (s, refl)
equal-HasAt (c ∷ what) [] h = cc
equal-HasAt (c ∷ what) (x ∷ s) h =
    let (rest, e) = equal-HasAt what s (ground arith) in
    let q : x ≡ c = ground arith in (rest, ap₂ ◌∷◌ q e)

pub equal-append : (what rest : List ℕ) → equal what (what ++ rest) ≡ true
unfolding equal
equal-append [] rest = refl
equal-append (c ∷ what) rest = ground (arith, equal-append what rest)

pub equal_complete :
    (what s : List ℕ) → equal what s ≡ false → (rest : List ℕ) → s ≡ what ++ rest → ⊥
equal_complete what s h rest e =
    let q : false ≡ true = sym h ∙ ap (equal what) e ∙ equal-append what rest in cc

-- The first place of `what` in `s`, with what stands before and behind it, or that there is none.
pub data Found (what s : List ℕ) : Type 0 where
  absent : index_of what s ≡ none → ((j : ℕ) → ¬ HasAt what s j) → Found what s
  at :
      (pre post : List ℕ)
      → index_of what s ≡ some (length pre)
      → s ≡ pre ++ (what ++ post)
      → ((j : ℕ) → j < length pre → ¬ HasAt what s j)
      → Found what s

drop-nil : (j : ℕ) → drop {A = ℕ} j [] ≡ []
drop-nil zero = refl
drop-nil (suc j) = refl

Found-cons :
    (what : List ℕ) (x : ℕ) (s : List ℕ)
    → equal what (x ∷ s) ≡ false
    → Found what s
    → Found what (x ∷ s)
unfolding index_of
Found-cons what x s no_match (absent e h) = absent (rw (no_match, e)) nowhere
  where
    nowhere : (j : ℕ) → ¬ HasAt what (x ∷ s) j
    nowhere zero (rest, q) = equal_complete what (x ∷ s) no_match rest q
    nowhere (suc j) found = h j found
Found-cons what x s no_match (at pre post e q h) =
    at (x ∷ pre) post (rw (no_match, e)) (ap (◌∷◌ x) q) not_before
  where
    not_before : (j : ℕ) → j < suc (length pre) → ¬ HasAt what (x ∷ s) j
    not_before zero l (rest, k) = equal_complete what (x ∷ s) no_match rest k
    not_before (suc j) l found = h j (omega arith) found

Found-nil : (what : List ℕ) → equal what [] ≡ false → Found what []
unfolding index_of
Found-nil what no_match = absent (rw no_match) nowhere
  where
    nowhere : (j : ℕ) → ¬ HasAt what [] j
    nowhere j (rest, q) = equal_complete what [] no_match rest (sym (drop-nil j) ∙ q)

Found-here : (what s : List ℕ) → index_of what s ≡ some 0 → equal what s ≡ true → Found what s
Found-here what s i e =
    let (rest, q) = equal-HasAt what s e in at [] rest i q (λ j l. absurd (omega arith))

pub index_of-Found : (what s : List ℕ) → Found what s
unfolding index_of
index_of-Found what [] = elim (Bool-cases (equal what [])) [
  | inl e ↦ Found-here what [] (rw e) e
  | inr e ↦ Found-nil what e
]
index_of-Found what (x ∷ s) =
    let rest = index_of-Found what s in
    elim (Bool-cases (equal what (x ∷ s))) [
      | inl e ↦ Found-here what (x ∷ s) (rw e) e
      | inr e ↦ Found-cons what x s e rest
    ]

pub drop-append {ℓ} : {A : Type ℓ} (xs ys : List A) → drop (length xs) (xs ++ ys) ≡ ys
drop-append [] ys = refl
drop-append (x ∷ xs) ys = drop-append xs ys

pub take-append {ℓ} : {A : Type ℓ} (xs ys : List A) → take (length xs) (xs ++ ys) ≡ xs
take-append [] ys = refl
take-append (x ∷ xs) ys = ap (◌∷◌ x) (take-append xs ys)

-- From behind what has been dealt with, `find` looks only at the rest.
pub find-append :
    (done rest what : List ℕ)
    → find (done ++ rest) what (length done)
      ≡ Option.map (λ k. length done + k) (index_of what rest)
unfolding find
find-append done rest what = rw (drop-append done rest) (ground (arith, length-append done rest))

pub find_rest :
    (done rest what pre : List ℕ)
    → index_of what rest ≡ some (length pre)
    → find (done ++ rest) what (length done) ≡ some (length (done ++ pre))
find_rest done rest what pre e =
    rw (find-append done rest what, e) (ap some (sym (length-append done pre)))
