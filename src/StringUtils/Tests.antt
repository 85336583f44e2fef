-- ===== src/StringUtils/Tests.antt =====
-- Runs of the string functions, and the theorems at concrete texts.
use fbutils.Prelude.{ℕ, ◌≤◌, ◌<◌, ◌≡◌, refl, true, false, some, List, [], ◌∷◌, take, length, arith}
use Prim.Native.String.{String}
use Prim.Native.Char.{code}
use fbutils.StringUtils.{
  find_and_replace, string_split, string_split_char, strings, begins_with, ends_with, remove_ending,
}
use fbutils.StringUtils.Search.{HasAt}
use fbutils.StringUtils.Replace.{Replaced, find_and_replace_lem}
use fbutils.StringUtils.Lines.{terminated, ended, AllLack, string_split_char_lem}
use fbutils.StringUtils.Split.{Cut, join, string_split_lem}
use fbutils.StringUtils.Ends.{remove_ending_lem}

abbrev codes : String → List ℕ
codes String.[] = []
codes (String.◌∷◌ c s) = code c ∷ codes s

-- The assertions of the source.
removes :
    (remove_ending (codes "aaaaa.bbb") (codes ".bbb") ≡ codes "aaaaa")
    × (remove_ending (codes "aaaaa.bbb") (codes ".ccc") ≡ codes "aaaaa.bbb")
    × (remove_ending (codes "a.bbb.c") (codes ".bbb") ≡ codes "a")
unfolding remove_ending
removes = (refl, refl, refl)

replaces : find_and_replace 9 (codes "a-b--c") (codes "-") (codes "->") ≡ some (codes "a->b->->c")
unfolding find_and_replace
replaces = refl

splits :
    (string_split_char (codes "a,,b,") b',' ≡ some (codes "a" ∷ [] ∷ codes "b" ∷ []))
    × (string_split 9 (codes "a,,b,") (codes ",") ≡ strings (codes "a" ∷ [] ∷ codes "b" ∷ [] ∷ []))
    × (string_split 9 (codes "a::b") (codes "::") ≡ strings (codes "a" ∷ codes ":b" ∷ []))
unfolding string_split_char string_split
splits = (refl, refl, refl)

tests_ends :
    (begins_with (codes "abc") (codes "ab") ≡ true)
    × (ends_with (codes "abc") (codes "bc") ≡ true)
    × (ends_with (codes "c") (codes "bc") ≡ false)
unfolding begins_with ends_with
tests_ends = (refl, refl, refl)

abbrev comma : List ℕ
comma = b',' ∷ []

find_and_replace_lem_example :
    (t : List ℕ) × (find_and_replace 9 (codes "a,b") comma (codes ", ") ≡ some t)
    × Replaced comma (codes ", ") (codes "a,b") t
find_and_replace_lem_example =
    find_and_replace_lem (codes "a,b") comma (codes ", ") 9 (omega arith) (omega arith)

string_split_char_lem_example :
    (ls : List (List ℕ)) × (string_split_char (codes "a,b") b',' ≡ some ls)
    × (terminated b',' ls ≡ ended b',' (codes "a,b"))
    × AllLack b',' ls
string_split_char_lem_example = string_split_char_lem (codes "a,b") b','

string_split_lem_example :
    (ls : List (List ℕ)) × (string_split 9 (codes "a,b") comma ≡ strings ls)
    × Cut b',' [] (codes "a,b") ls
    × (join comma ls ≡ codes "a,b")
string_split_lem_example = string_split_lem (codes "a,b") b',' [] 9 (omega arith)

remove_ending_lem_example :
    let s = codes "a.c" in
    ((k : ℕ)
      → k ≤ length s
      → HasAt (codes ".c") s k
      → ((j : ℕ) → k < j → j ≤ length s → ¬ HasAt (codes ".c") s j)
      → remove_ending s (codes ".c") ≡ take k s)
    × (((j : ℕ) → j ≤ length s → ¬ HasAt (codes ".c") s j) → remove_ending s (codes ".c") ≡ s)
remove_ending_lem_example = remove_ending_lem (codes "a.c") (codes ".c")
