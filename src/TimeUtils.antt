-- ===== src/TimeUtils.antt =====
-- include/fbu/time_utils.hpp: times from texts. `sscanf` and `strstr` are those of C; `mktime` is a
-- parameter. A text is the list of its codes, and an `int` its 32 bits.
--
-- No function looks at what `sscanf` returns: a variable that it does not set holds what it happened to
-- hold, which is a parameter (`Stack`). `none` is a behaviour that C does not define: a word too long for its
-- array, or the difference of a null pointer.
pub mod Decimal
pub mod RoundTrip
pub mod BuildDate
mod Tests
use fbutils.Prelude.{
  ℕ, ◌+◌, ◌-◌, ◌*◌, ◌/◌, ◌%◌, ◌^◌, Bool, true, false, not, ◌&&◌, ◌||◌, ◌==◌, leb, ltb, Option, none,
  some, List, [], ◌∷◌, length, get_elem?, if◌then◌else◌, ◌>>=◌,
}
use fbutils.StringUtils.{find}

abbrev pub Text : Type 0
Text = List ℕ

-- `isspace` and `isdigit`
abbrev pub is_space : ℕ → Bool
is_space c = (c == 32) || (leb 9 c && leb c 13)

abbrev pub is_digit : ℕ → Bool
is_digit c = leb 48 c && leb c 57

unfoldable pub skip_space : Text → Text
skip_space [] = []
skip_space (c ∷ s) = let rest = skip_space s in if is_space c then rest else c ∷ s

-- The digits at the start of a text, behind those with the value `n`, and the rest
unfoldable pub digits : ℕ → Text → ℕ × Text
digits n [] = (n, [])
digits n (c ∷ s) =
    let more = digits (n * 10 + (c - 48)) s in if is_digit c then more else (n, c ∷ s)

abbrev pub starts_with_digit : Text → Bool
starts_with_digit [] = false
starts_with_digit (c ∷ s) = is_digit c

-- A number with no sign; a value of more than 32 bits, which C does not define, is cut off.
unfoldable pub unsigned_int : Text → Option (ℕ × Text)
unfolding digits
unsigned_int s =
    let (n, rest) = digits 0 s in if starts_with_digit s then some (n % 2 ^ 32, rest) else none

-- The directive `%d`
unfoldable pub signed_int : Text → Option (ℕ × Text)
unfolding unsigned_int
signed_int [] = none
signed_int (c ∷ s) =
    if c == 45
    then (do (n, rest) ← unsigned_int s; some ((2 ^ 32 - n) % 2 ^ 32, rest))
    else if c == 43
    then unsigned_int s
    else unsigned_int (c ∷ s)

-- The directive `%s`, behind the white space
unfoldable pub word : Text → Text × Text
word [] = ([], [])
word (c ∷ s) = let (w, rest) = word s in if is_space c then ([], c ∷ s) else (c ∷ w, rest)

pub data Directive : Type 0 where
  an_int : Directive
  literal : ℕ → Directive
  space : Directive

-- `sscanf` with directives that set `int` variables: the values that it sets, in their order
unfoldable pub scan : List Directive → Text → List ℕ
unfolding skip_space signed_int
scan [] s = []
scan (an_int ∷ ds) s = elim (signed_int (skip_space s)) [
  | none ↦ []
  | some (n, rest) ↦ n ∷ scan ds rest
]
scan (space ∷ ds) s = scan ds (skip_space s)
scan (literal c ∷ ds) [] = []
scan (literal c ∷ ds) (x ∷ s) = let rest = scan ds s in if x == c then rest else []

-- `struct tm`; the fields that no function sets are 0.
pub record Tm : Type 0 where
  pub tm_year : ℕ
  pub tm_mon : ℕ
  pub tm_mday : ℕ
  pub tm_hour : ℕ
  pub tm_min : ℕ
  pub tm_sec : ℕ
  pub tm_isdst : ℕ

-- What the variables hold before `sscanf`: the numbers, by their place, and the text of `s_month`
pub record Stack : Type 0 where
  pub number : ℕ → ℕ
  pub month : Text

-- The variable of place `i`, of those that `sscanf` sets
abbrev pub variable : Stack → List ℕ → ℕ → ℕ
variable stack vs i = elim (get_elem? vs i) [ none ↦ stack.number i | some v ↦ v ]

-- `a - b` on `int`
abbrev pub minus : ℕ → ℕ → ℕ
minus a b = (a + 2 ^ 32 - b) % 2 ^ 32

abbrev pub ymd_format : List Directive
ymd_format = an_int ∷ literal 45 ∷ an_int ∷ literal 45 ∷ an_int ∷ []

abbrev pub ymdhms_format : List Directive
ymdhms_format =
    an_int
    ∷ literal 45
    ∷ an_int
    ∷ literal 45
    ∷ an_int
    ∷ space
    ∷ an_int
    ∷ literal 58
    ∷ an_int
    ∷ literal 58
    ∷ an_int
    ∷ []

abbrev pub month_names : Text
month_names =
    74 ∷ 97 ∷ 110 ∷ 70 ∷ 101 ∷ 98 ∷ 77 ∷ 97 ∷ 114 ∷ 65 ∷ 112 ∷ 114 ∷ 77 ∷ 97 ∷ 121 ∷ 74 ∷ 117 ∷ 110
    ∷ 74 ∷ 117 ∷ 108 ∷ 65 ∷ 117 ∷ 103 ∷ 83 ∷ 101 ∷ 112 ∷ 79 ∷ 99 ∷ 116 ∷ 78 ∷ 111 ∷ 118 ∷ 68 ∷ 101
    ∷ 99 ∷ []

module _ {Time : Type 0} (mktime : Tm → Time) (stack : Stack) where
  unfoldable pub time_from_ymd_string : Text → Time
  unfolding scan
  time_from_ymd_string s =
      let vs = scan ymd_format s in
      mktime (record {
        tm_year = minus (variable stack vs 0) 1900;
        tm_mon = minus (variable stack vs 1) 1;
        tm_mday = variable stack vs 2;
        tm_hour = 0;
        tm_min = 0;
        tm_sec = 0;
        tm_isdst = 2 ^ 32 - 1;
      })

  unfoldable pub time_from_ymdhms_string : Text → Time
  unfolding scan
  time_from_ymdhms_string s =
      let vs = scan ymdhms_format s in
      mktime (record {
        tm_year = minus (variable stack vs 0) 1900;
        tm_mon = minus (variable stack vs 1) 1;
        tm_mday = variable stack vs 2;
        tm_hour = variable stack vs 3;
        tm_min = variable stack vs 4;
        tm_sec = variable stack vs 5;
        tm_isdst = 2 ^ 32 - 1;
      })

  -- `timeFromStringDate` behind the `%s`, for the text in `s_month` and the values of the two `%d`
  unfoldable pub date_of : Text → List ℕ → Option Time
  date_of month vs = do
    at ← find month_names month 0
    some (
        mktime (record {
          tm_year = minus (variable stack vs 1) 1900;
          tm_mon = at / 3;
          tm_mday = variable stack vs 0;
          tm_hour = 0;
          tm_min = 0;
          tm_sec = 0;
          tm_isdst = 2 ^ 32 - 1;
        }))

  unfoldable pub time_from_string_date : Text → Option Time
  unfolding word skip_space scan date_of
  time_from_string_date s =
      let (w, rest) = word (skip_space s) in
      if length w == 0
      then date_of stack.month []
      else if ltb 4 (length w)
      then none
      else date_of w (scan (space ∷ an_int ∷ space ∷ an_int ∷ []) rest)

-- `secondsSinceEpoch`, for a clock that makes so many ticks in a second and a time from 1970 on
unfoldable pub seconds_since_epoch : ℕ → ℕ → ℕ
seconds_since_epoch ticks now = now / ticks
