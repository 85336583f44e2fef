-- ===== src/FileSystem/Names.antt =====
-- `isPOSIXFullyPortableFileName` and `isPOSIXFullyPortableFileNameRelaxed`.
use fbutils.Prelude.{
  ℕ, zero, suc, ◌≤◌, ◌≡◌, ◌≢◌, refl, sym, ◌∙◌, ap, Bool, true, false, ◌&&◌, Bool-cases, inl, inr,
  ◌↔◌, [], ◌∷◌, arith, get_elem?, some, none, length,
}
use fbutils.StringUtils.{equals}
use fbutils.StringUtils.Ends.{equals-eq, equals_refl}
use fbutils.FileSystem.{
  Text, is_head, is_tail, is_relaxed_tail, all_in, matches, is_name, is_portable,
  is_portable_relaxed,
}

-- A name of 1 to `limit` characters other than "." and "..", the first alphanumeric or one of `.` and
-- `_`, the others in `tail`.
pub record IsName (limit : ℕ) (tail : ℕ → Bool) (name : Text) : Type 0 where
  pub not_empty : 1 ≤ length name
  pub bounded : length name ≤ limit
  pub not_dot : name ≢ 46 ∷ []
  pub not_dot_dot : name ≢ 46 ∷ 46 ∷ []
  pub starts : (c : ℕ) → get_elem? name 0 ≡ some c → is_head c ≡ true
  pub goes_on : (i c : ℕ) → get_elem? name (suc i) ≡ some c → tail c ≡ true

all_in_sound :
    (p : ℕ → Bool) (s : Text) (i : ℕ) {c : ℕ}
    → all_in p s ≡ true
    → get_elem? s i ≡ some c
    → p c ≡ true
unfolding all_in
all_in_sound p [] i h held = cc
all_in_sound p (x ∷ s) zero {c} h held =
    ap (λ o. elim o [ none ↦ true | some z ↦ p z ]) (sym held) ∙ ground arith
all_in_sound p (x ∷ s) (suc i) h held = all_in_sound p s i (ground arith) held

all_in_complete :
    (p : ℕ → Bool) (s : Text)
    → ((i c : ℕ) → get_elem? s i ≡ some c → p c ≡ true)
    → all_in p s ≡ true
unfolding all_in
all_in_complete p [] h = refl
all_in_complete p (x ∷ s) h = rw (h 0 x refl) (all_in_complete p s (λ i. h (suc i)))

equals_ne : (s t : Text) → s ≢ t → equals s t ≡ false
equals_ne s t ne = elim (Bool-cases (equals s t)) [
  | inl h ↦ absurd (ne (equals-eq s t h))
  | inr h ↦ h
]

ne_of_equals : (s t : Text) → equals s t ≡ false → s ≢ t
ne_of_equals s t h e = absurd (ground (arith, equals_refl t, ap (λ z. equals z t) e))

is_name_sound :
    (limit : ℕ) (tail : ℕ → Bool) (name : Text)
    → is_name limit tail name ≡ true
    → IsName limit tail name
unfolding is_name matches
is_name_sound limit tail [] h = absurd (ground arith)
is_name_sound limit tail (c ∷ s) h =
    let dot : equals (c ∷ s) (46 ∷ []) ≡ false = ground arith in
    let dot_dot : equals (c ∷ s) (46 ∷ 46 ∷ []) ≡ false = ground arith in
    let matched : (is_head c && all_in tail s) ≡ true = ground arith in
    record {
      not_empty = omega arith;
      bounded = ground arith;
      not_dot = ne_of_equals (c ∷ s) (46 ∷ []) dot;
      not_dot_dot = ne_of_equals (c ∷ s) (46 ∷ 46 ∷ []) dot_dot;
      starts =
          λ d held. ap (λ o. elim o [ none ↦ true | some z ↦ is_head z ]) (sym held) ∙ ground arith;
      goes_on = λ i d held. all_in_sound tail s i (ground arith) held;
    }

is_name_complete :
    (limit : ℕ) (tail : ℕ → Bool) (name : Text)
    → IsName limit tail name
    → is_name limit tail name ≡ true
unfolding is_name matches
is_name_complete limit tail [] n = absurd (omega (arith, n.not_empty))
is_name_complete limit tail (c ∷ s) n = ground (
  arith,
  equals_ne (c ∷ s) (46 ∷ []) n.not_dot,
  equals_ne (c ∷ s) (46 ∷ 46 ∷ []) n.not_dot_dot,
  n.bounded,
  n.starts c refl,
  all_in_complete tail s n.goes_on,
)

IsName-relaxed : (name : Text) → IsName 14 is_tail name → IsName 254 is_relaxed_tail name
unfolding is_relaxed_tail
IsName-relaxed name n = record {
  not_empty = n.not_empty;
  bounded = omega (arith, n.bounded);
  not_dot = n.not_dot;
  not_dot_dot = n.not_dot_dot;
  starts = n.starts;
  goes_on = λ i c held. ground (arith, n.goes_on i c held);
}

-- `isPOSIXFullyPortableFileName` holds exactly for a name of 1 to 14 characters other than "." and ".."
-- that are alphanumeric, `.`, `_` or, but for the first, `-`; the relaxed function exactly for the names of
-- 1 to 254 that may also have spaces behind the first character, so that it holds where the first does.
pub portable_lem :
    (name : Text)
    → (is_portable name ≡ true ↔ IsName 14 is_tail name)
      × (is_portable_relaxed name ≡ true ↔ IsName 254 is_relaxed_tail name)
      × (is_portable name ≡ true → is_portable_relaxed name ≡ true)
unfolding is_portable is_portable_relaxed
portable_lem name = (
  (is_name_sound 14 is_tail name, is_name_complete 14 is_tail name),
  (is_name_sound 254 is_relaxed_tail name, is_name_complete 254 is_relaxed_tail name),
  λ h.
      is_name_complete 254 is_relaxed_tail name
        (IsName-relaxed name (is_name_sound 14 is_tail name h)),
)
