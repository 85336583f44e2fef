-- ===== src/StringUtils.antt =====
-- include/fbu/string_utils.hpp: the functions of `fbu::string`. A string is the list of its characters.
--
-- The members of `std::string` that the functions use stand first: `npos` is `none`, and a position
-- past the end, where `substr` throws, is `none` too.
mod Search
pub mod Replace
pub mod Split
pub mod Lines
pub mod Ends
mod Tests
use mathlib.Core.Option
use fbutils.Prelude.{
  ℕ, zero, suc, ◌+◌, ◌-◌, Bool, true, false, ◌&&◌, ◌==◌, leb, if◌then◌else◌, Option, none, some,
  List, [], ◌∷◌, ◌++◌, take, drop, length,
}

-- `std::equal(root.begin(), root.end(), s.begin())`: whether `s` starts with `root`.
unfoldable pub equal : List ℕ → List ℕ → Bool
equal [] s = true
equal (c ∷ root) [] = false
equal (c ∷ root) (x ∷ s) = c == x && equal root s

-- The first place at which `s` has `what`.
unfoldable pub index_of : List ℕ → List ℕ → Option ℕ
unfolding equal
index_of what [] = if equal what [] then some 0 else none
index_of what (x ∷ s) = if equal what (x ∷ s) then some 0 else Option.map suc (index_of what s)

-- `s.find(what, from)`
unfoldable pub find : List ℕ → List ℕ → ℕ → Option ℕ
unfolding index_of
find s what from =
    if leb from (length s) then Option.map (λ k. from + k) (index_of what (drop from s)) else none

-- `s.rfind(what)`: the last place at which `s` has `what`.
unfoldable pub rfind : List ℕ → List ℕ → Option ℕ
unfolding equal
rfind [] what = if equal what [] then some 0 else none
rfind (x ∷ s) what = elim (rfind s what) [
  | some k ↦ some (suc k)
  | none ↦ if equal what (x ∷ s) then some 0 else none
]

-- `s.replace(at, len, by)`, for a place inside `s`
unfoldable pub replace : List ℕ → ℕ → ℕ → List ℕ → List ℕ
replace s at len by = take at s ++ (by ++ drop (at + len) s)

-- `s.substr(from)` and `s.substr(from, len)`
unfoldable pub substr_from : List ℕ → ℕ → Option (List ℕ)
substr_from s from = if leb from (length s) then some (drop from s) else none

unfoldable pub substr : List ℕ → ℕ → ℕ → Option (List ℕ)
substr s from len = if leb from (length s) then some (take len (drop from s)) else none

-- The loop of `find_and_replace`, from the place `i`. Where `what` is not empty, `length s + 1` rounds
-- are enough; none means that the rounds have run out.
unfoldable pub replace_loop : ℕ → List ℕ → List ℕ → List ℕ → ℕ → Option (List ℕ)
unfolding find replace
replace_loop zero what by s i = none
replace_loop (suc rounds) what by s i = elim (find s what i) [
  | none ↦ some s
  | some k ↦ replace_loop rounds what by (replace s k (length what) by) (k + length by)
]

unfoldable pub find_and_replace : ℕ → List ℕ → List ℕ → List ℕ → Option (List ℕ)
unfolding replace_loop
find_and_replace rounds s what by = replace_loop rounds what by s 0

-- `std::getline(stream, each, c)`: the characters before the next `c`, and what is left behind it.
unfoldable pub line : ℕ → List ℕ → List ℕ × List ℕ
line c [] = ([], [])
line c (x ∷ s) = let (l, rest) = line c s in if x == c then ([], s) else (x ∷ l, rest)

-- The loop of `string_split(pString, char)`: `getline` fails where no character is left. None means
-- that the rounds have run out.
unfoldable pub lines : ℕ → ℕ → List ℕ → Option (List (List ℕ))
lines rounds c [] = some []
lines zero c (x ∷ s) = none
lines (suc rounds) c (x ∷ s) =
    let (l, rest) = line c (x ∷ s) in Option.map (◌∷◌ l) (lines rounds c rest)

-- A round uses up a character at least.
unfoldable pub string_split_char : List ℕ → ℕ → Option (List (List ℕ))
unfolding lines line
string_split_char s c = lines (length s) c s

-- How `string_split(pString, const char*)` ends: with its strings, with the exception of `substr`, or
-- not within the rounds given.
pub data Outcome : Type 0 where
  strings : List (List ℕ) → Outcome
  out_of_range : Outcome
  unfinished : Outcome

-- `strings.push_back(l)` before the rest of the loop.
abbrev pub push : Option (List ℕ) → Outcome → Outcome
push none r = out_of_range
push (some l) (strings ls) = strings (l ∷ ls)
push (some l) out_of_range = out_of_range
push (some l) unfinished = unfinished

-- Its loop, from the place `prev`. `length s + 2` rounds are enough.
unfoldable pub split_loop : ℕ → List ℕ → List ℕ → ℕ → Outcome
unfolding find substr substr_from
split_loop zero s delimiter prev = unfinished
split_loop (suc rounds) s delimiter prev = elim (find s delimiter prev) [
  | none ↦ push (substr_from s prev) (strings [])
  | some pos ↦ push (substr s prev (pos - prev)) (split_loop rounds s delimiter (pos + 1))
]

unfoldable pub string_split : ℕ → List ℕ → List ℕ → Outcome
unfolding split_loop
string_split rounds s delimiter = split_loop rounds s delimiter 0

unfoldable pub begins_with : List ℕ → List ℕ → Bool
unfolding equal
begins_with full root = leb (length root) (length full) && equal root full

-- `0 == s.compare(from, len, t)`
unfoldable pub equals : List ℕ → List ℕ → Bool
equals [] [] = true
equals [] (y ∷ t) = false
equals (x ∷ s) [] = false
equals (x ∷ s) (y ∷ t) = x == y && equals s t

unfoldable pub ends_with : List ℕ → List ℕ → Bool
unfolding equals
ends_with full ending =
    leb (length ending) (length full)
    && equals (take (length ending) (drop (length full - length ending) full)) ending

unfoldable pub remove_ending : List ℕ → List ℕ → List ℕ
unfolding rfind
remove_ending s ending = elim (rfind s ending) [ some found ↦ take found s | none ↦ s ]
