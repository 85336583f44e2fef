-- ===== src/StringUtils/Ends.antt =====
-- `beginsWith`, `endsWith` and `removeEnding`.
use fbutils.Prelude.{
  ℕ, zero, suc, ◌+◌, ◌-◌, ◌≤◌, ◌<◌, ◌≡◌, ◌↔◌, inl, inr, refl, sym, ◌∙◌, ap, true, false, Bool-cases,
  none, some, List, [], ◌∷◌, ◌++◌, take, drop, length, length-append, arith, if◌then◌else◌,
}
use mathlib.Core.Path.{ap₂}
use mathlib.Core.List.{append-nil}
use fbutils.StringUtils.{equal, equals, rfind, begins_with, ends_with, remove_ending}
use fbutils.StringUtils.Search.{
  HasAt, equal-HasAt, equal-append, equal_complete, drop-append, take-append,
}

begins_with_iff :
    (full root : List ℕ)
    → (begins_with full root ≡ true) ↔ ((rest : List ℕ) × (full ≡ root ++ rest))
unfolding begins_with
begins_with_iff full root = (
  λ h. equal-HasAt root full (ground arith),
  λ (rest, e). rw e (ground (arith, equal-append root rest, length-append root rest)),
)

pub equals-eq : (s t : List ℕ) → equals s t ≡ true → s ≡ t
unfolding equals
equals-eq [] [] h = refl
equals-eq [] (y ∷ t) h = cc
equals-eq (x ∷ s) [] h = cc
equals-eq (x ∷ s) (y ∷ t) h =
    let q : x ≡ y = ground arith in ap₂ ◌∷◌ q (equals-eq s t (ground arith))

pub equals_refl : (s : List ℕ) → equals s s ≡ true
unfolding equals
equals_refl [] = refl
equals_refl (x ∷ s) = ground (arith, equals_refl s)

take_all : (s : List ℕ) → take (length s) s ≡ s
take_all [] = refl
take_all (x ∷ s) = ap (◌∷◌ x) (take_all s)

take-append-drop : (n : ℕ) (s : List ℕ) → take n s ++ drop n s ≡ s
take-append-drop zero s = refl
take-append-drop (suc n) [] = refl
take-append-drop (suc n) (x ∷ s) = ap (◌∷◌ x) (take-append-drop n s)

length-drop_le : (n : ℕ) (s : List ℕ) → n ≤ length s → length (drop n s) + n ≡ length s
length-drop_le zero s h = omega arith
length-drop_le (suc n) [] h = absurd (omega arith)
length-drop_le (suc n) (x ∷ s) h = omega (arith, length-drop_le n s)

ends_with-split :
    (full ending : List ℕ)
    → ends_with full ending ≡ true
    → (front : List ℕ) × (full ≡ front ++ ending)
unfolding ends_with
ends_with-split full ending h =
    let n = length full - length ending in
    let fits : length ending ≤ length full = ground arith in
    let same : take (length ending) (drop n full) ≡ ending = equals-eq _ _ (ground arith) in
    let size : length ending ≡ length (drop n full) =
      omega (arith, length-drop_le n full (omega arith)) in
    let tail : drop n full ≡ ending =
      sym (take_all (drop n full)) ∙ ap (λ m. take m (drop n full)) (sym size) ∙ same in
    (take n full, sym (take-append-drop n full) ∙ ap (λ t. take n full ++ t) tail)

ends_with-append : (front ending : List ℕ) → ends_with (front ++ ending) ending ≡ true
unfolding ends_with
ends_with-append front ending =
    let size : length (front ++ ending) - length ending ≡ length front =
      omega (arith, length-append front ending) in
    rw (size, drop-append front ending, take_all ending, equals_refl ending)
      (ground (arith, length-append front ending))

ends_with_iff :
    (full ending : List ℕ)
    → (ends_with full ending ≡ true) ↔ ((front : List ℕ) × (full ≡ front ++ ending))
ends_with_iff full ending =
    (ends_with-split full ending, λ (front, e). rw e (ends_with-append front ending))

-- `beginsWith` holds exactly when the text is the given one followed by something, and `endsWith` exactly
-- when it is something followed by the given one.
begins_and_ends :
    (full part : List ℕ)
    → ((begins_with full part ≡ true) ↔ ((rest : List ℕ) × (full ≡ part ++ rest)))
      × ((ends_with full part ≡ true) ↔ ((front : List ℕ) × (full ≡ front ++ part)))
begins_and_ends full part = (begins_with_iff full part, ends_with_iff full part)

HasAt-equal : (what s : List ℕ) → HasAt what s 0 → equal what s ≡ true
HasAt-equal what s (rest, e) = elim (Bool-cases (equal what s)) [
  | inl h ↦ h
  | inr h ↦ absurd (equal_complete what s h rest e)
]

not_HasAt-equal : (what s : List ℕ) → ¬ HasAt what s 0 → equal what s ≡ false
not_HasAt-equal what s n = elim (Bool-cases (equal what s)) [
  | inl h ↦ absurd (n (equal-HasAt what s h))
  | inr h ↦ h
]

module _ (what : List ℕ) (x : ℕ) (s : List ℕ) where
  rfind-later : (k : ℕ) → rfind s what ≡ some k → rfind (x ∷ s) what ≡ some (suc k)
  unfolding rfind
  rfind-later k e = ground arith

  rfind-here :
      rfind s what ≡ none → rfind (x ∷ s) what ≡ (if equal what (x ∷ s) then some 0 else none)
  unfolding rfind
  rfind-here e = ground arith

rfind-none : (what s : List ℕ) → ((j : ℕ) → j ≤ length s → ¬ HasAt what s j) → rfind s what ≡ none
rfind-none what [] h = unfold rfind in rw (not_HasAt-equal what [] (h 0 (omega arith)))
rfind-none what (x ∷ s) h =
    rfind-here what x s (rfind-none what s (λ j b. h (suc j) (omega arith)))
    ∙ rw (not_HasAt-equal what (x ∷ s) (h 0 (omega arith)))

rfind_last :
    (what s : List ℕ) (k : ℕ)
    → k ≤ length s
    → HasAt what s k
    → ((j : ℕ) → k < j → j ≤ length s → ¬ HasAt what s j)
    → rfind s what ≡ some k
rfind_last what [] zero b h last = unfold rfind in rw (HasAt-equal what [] h)
rfind_last what [] (suc k) b h last = absurd (omega arith)
rfind_last what (x ∷ s) zero b h last =
    rfind-here what x s (rfind-none what s (λ j c. last (suc j) (omega arith) (omega arith)))
    ∙ rw (HasAt-equal what (x ∷ s) h)
rfind_last what (x ∷ s) (suc k) b h last =
    rfind-later what x s k
      (rfind_last what s k (omega arith) h (λ j c d. last (suc j) (omega arith) (omega arith)))

-- `removeEnding` cuts the text before the last place that has the ending, wherever that is, and
-- returns the text as it is where no place has it.
pub remove_ending_lem :
    (s ending : List ℕ)
    → ((k : ℕ)
        → k ≤ length s
        → HasAt ending s k
        → ((j : ℕ) → k < j → j ≤ length s → ¬ HasAt ending s j)
        → remove_ending s ending ≡ take k s)
      × (((j : ℕ) → j ≤ length s → ¬ HasAt ending s j) → remove_ending s ending ≡ s)
unfolding remove_ending
remove_ending_lem s ending = (
  λ k b h last. let e = rfind_last ending s k b h last in ground arith,
  λ n. let e = rfind-none ending s n in ground arith,
)

HasAt-append : (front ending : List ℕ) → HasAt ending (front ++ ending) (length front)
HasAt-append front ending = ([], drop-append front ending ∙ sym (append-nil ending))

HasAt-fits : (what s : List ℕ) (j : ℕ) → j ≤ length s → HasAt what s j → j + length what ≤ length s
HasAt-fits what s j b (rest, e) =
    omega (arith, length-drop_le j s b, ap length e, length-append what rest)

-- Removing an ending that has just been added gives the text back.
remove_ending-append : (front ending : List ℕ) → remove_ending (front ++ ending) ending ≡ front
remove_ending-append front ending =
    (remove_ending_lem (front ++ ending) ending).0 (length front)
      (omega (arith, length-append front ending)) (HasAt-append front ending)
      (λ j c d h.
        absurd
          (omega (arith, length-append front ending, HasAt-fits ending (front ++ ending) j d h)))
    ∙ take-append front ending
