-- ===== src/StringUtils/Lines.antt =====
-- `string_split` at a character.
use mathlib.Core.Path.{subst, ap₂}
use native.Mathlib.Nat.{le_trans}
use fbutils.Prelude.{
  ℕ, zero, suc, ◌≤◌, ◌≡◌, inl, inr, refl, sym, ◌∙◌, ap, false, some, List, [], ◌∷◌, ◌++◌, length,
  length-append, arith, ◌==◌, Bool-cases, if◌then◌else◌,
}
use fbutils.StringUtils.{line, lines, string_split_char}

-- `c` does not stand in the string.
abbrev pub Lacks : ℕ → List ℕ → Type 0
Lacks c [] = Unit
Lacks c (x ∷ s) = ((x == c) ≡ false) × Lacks c s

abbrev pub AllLack : ℕ → List (List ℕ) → Type 0
AllLack c [] = Unit
AllLack c (l ∷ ls) = Lacks c l × AllLack c ls

-- Each string with the character behind it, one after the other.
abbrev pub terminated : ℕ → List (List ℕ) → List ℕ
terminated c [] = []
terminated c (l ∷ ls) = l ++ (c ∷ terminated c ls)

-- A text that is not empty, made to end with the character.
abbrev pub ended : ℕ → List ℕ → List ℕ
ended c [] = []
ended c (x ∷ []) = if x == c then x ∷ [] else x ∷ c ∷ []
ended c (x ∷ y ∷ s) = x ∷ ended c (y ∷ s)

-- A line ends at the character or at the end of the text.
data Cut (c : ℕ) (s : List ℕ) (r : List ℕ × List ℕ) : Type 0 where
  at_char : s ≡ r.0 ++ (c ∷ r.1) → Lacks c r.0 → Cut c s r
  at_end : s ≡ r.0 → r.1 ≡ [] → Lacks c r.0 → Cut c s r

Cut-cons :
    (c x : ℕ) {s : List ℕ} {r : List ℕ × List ℕ}
    → (x == c) ≡ false
    → Cut c s r
    → Cut c (x ∷ s) (x ∷ r.0, r.1)
Cut-cons c x e (at_char q n) = at_char (ap (◌∷◌ x) q) (e, n)
Cut-cons c x e (at_end q k n) = at_end (ap (◌∷◌ x) q) k (e, n)

line-Cut : (c : ℕ) (s : List ℕ) → Cut c s (line c s)
unfolding line
line-Cut c [] = at_end refl refl tt
line-Cut c (x ∷ s) =
    let rest = line-Cut c s in
    elim (Bool-cases (x == c)) [
      | inl e ↦ let q : x ≡ c = ground arith in rw e (at_char (ap (λ y. y ∷ s) q) tt)
      | inr e ↦ rw e (Cut-cons c x e rest)
    ]

ended-append : (c : ℕ) (l rest : List ℕ) → ended c (l ++ (c ∷ rest)) ≡ l ++ (c ∷ ended c rest)
ended-append c [] [] = ground arith
ended-append c [] (y ∷ rest) = refl
ended-append c (x ∷ []) rest = ap (◌∷◌ x) (ended-append c [] rest)
ended-append c (x ∷ y ∷ l) rest = ap (◌∷◌ x) (ended-append c (y ∷ l) rest)

ended-Lacks : (c x : ℕ) (l : List ℕ) → Lacks c (x ∷ l) → ended c (x ∷ l) ≡ (x ∷ l) ++ (c ∷ [])
ended-Lacks c x [] (n, h) = rw n
ended-Lacks c x (y ∷ l) (n, h) = ap (◌∷◌ x) (ended-Lacks c y l h)

Result : ℕ → ℕ → List ℕ → Type 0
Result rounds c s =
    (ls : List (List ℕ)) × (lines rounds c s ≡ some ls)
    × (terminated c ls ≡ ended c s)
    × AllLack c ls

shorter : {c x : ℕ} {s : List ℕ} {r : List ℕ × List ℕ} → Cut c (x ∷ s) r → length r.1 ≤ length s
shorter {c} {r} (at_char q n) = omega (arith, ap length q, length-append r.0 (c ∷ r.1))
shorter (at_end q k n) = omega (arith, ap length k)

-- What a line leaves behind it, put together with the line.
ended-Cut :
    {c x : ℕ} {s rest : List ℕ} {r : List ℕ × List ℕ}
    → Cut c (x ∷ s) r
    → rest ≡ ended c r.1
    → r.0 ++ (c ∷ rest) ≡ ended c (x ∷ s)
ended-Cut {c} {r} (at_char q n) h =
    ap (λ t. r.0 ++ (c ∷ t)) h ∙ sym (ended-append c r.0 r.1) ∙ sym (ap (ended c) q)
ended-Cut {c} {x} {s} {rest} {r} (at_end q k n) h =
    let none_left : rest ≡ [] = h ∙ ap (ended c) k in
    let lacks : Lacks c (x ∷ s) = subst (Lacks c) (sym q) n in
    ap₂ (λ l t. l ++ (c ∷ t)) (sym q) none_left ∙ sym (ended-Lacks c x s lacks)

Lacks-Cut : {c : ℕ} {s : List ℕ} {r : List ℕ × List ℕ} → Cut c s r → Lacks c r.0
Lacks-Cut (at_char q n) = n
Lacks-Cut (at_end q k n) = n

lines_lem : (rounds c : ℕ) (s : List ℕ) → length s ≤ rounds → Result rounds c s
unfolding lines Result
lines_lem zero c [] h = ([], refl, refl, tt)
lines_lem (suc rounds) c [] h = ([], refl, refl, tt)
lines_lem zero c (x ∷ s) h = absurd (omega arith)
lines_lem (suc rounds) c (x ∷ s) h =
    let first = line-Cut c (x ∷ s) in
    let l = (line c (x ∷ s)).0 in
    let (ls, e, t, n) =
      lines_lem rounds c (line c (x ∷ s)).1 (le_trans (shorter first) (omega arith)) in
    (l ∷ ls, rw e, ended-Cut first t, (Lacks-Cut first, n))

-- `string_split` at a character returns strings none of which has the character, and which give the text
-- back, each with the character behind it; where the text is not empty and does not end with the
-- character, that adds one at its end. (So no empty string stands for the end of such a text, and the
-- empty text gives no string.)
pub string_split_char_lem :
    (s : List ℕ) (c : ℕ)
    → (ls : List (List ℕ)) × (string_split_char s c ≡ some ls)
      × (terminated c ls ≡ ended c s)
      × AllLack c ls
unfolding string_split_char Result
string_split_char_lem s c = lines_lem (length s) c s (omega arith)
