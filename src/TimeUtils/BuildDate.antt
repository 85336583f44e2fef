-- ===== src/TimeUtils/BuildDate.antt =====
-- `timeFromStringDate` reads the date of a build, as `__DATE__` has it.
use fbutils.Prelude.{
  ℕ, ◌+◌, ◌-◌, ◌*◌, ◌/◌, ◌%◌, ◌^◌, ◌≤◌, ◌<◌, ◌≡◌, refl, ◌∙◌, ap, arith, Bool, true, false, not,
  ◌&&◌, some, none, Bool-cases, inl, inr, [], ◌∷◌, ◌++◌, length, take, drop, if◌then◌else◌, ◌==◌,
  ltb, all_below, all_below_sound,
}
use fbutils.StringUtils.{find, index_of, equal}
use fbutils.TimeUtils.{
  Text, is_space, Tm, Stack, skip_space, word, an_int, space, scan, minus, month_names, date_of,
  time_from_string_date,
}
use fbutils.TimeUtils.Decimal.{padded}
use fbutils.TimeUtils.RoundTrip.{scan-space, scan-last, scan-field_space}

abbrev pub month_name : ℕ → Text
month_name k = take 3 (drop (3 * k) month_names)

-- "Mmm dd yyyy", with a space before a day of one digit; the months are numbered from 0.
unfoldable pub print_date : ℕ → ℕ → ℕ → Text
print_date month day year =
    month_name month
    ++ 32 ∷ ((if ltb day 10 then 32 ∷ padded 1 day else padded 2 day) ++ 32 ∷ (padded 4 year ++ []))

abbrev no_space : Text → Bool
no_space [] = true
no_space (c ∷ s) = not (is_space c) && no_space s

abbrev found_at : Text → ℕ → Bool
found_at month at = elim (find month_names month 0) [ none ↦ false | some k ↦ k == at ]

is_month : ℕ → Bool
is_month k =
    no_space (month_name k) && ((length (month_name k) == 3) && found_at (month_name k) (3 * k))

months_right : all_below 12 is_month ≡ true
unfolding is_month find index_of equal
months_right = refl

word-no_space : (w rest : Text) → no_space w ≡ true → word (w ++ 32 ∷ rest) ≡ (w, 32 ∷ rest)
unfolding word
word-no_space [] rest h = refl
word-no_space (c ∷ w) rest h =
    let e : is_space c ≡ false = ground arith in rw (e, word-no_space w rest (ground arith)) refl

skip_space-no_space :
    (w rest : Text) → no_space w ≡ true → 0 < length w → skip_space (w ++ rest) ≡ w ++ rest
unfolding skip_space
skip_space-no_space [] rest h long = absurd (omega arith)
skip_space-no_space (c ∷ w) rest h long = let e : is_space c ≡ false = ground arith in rw e refl

month_facts :
    (k : ℕ)
    → is_month k ≡ true
    → (no_space (month_name k) ≡ true)
      × (length (month_name k) ≡ 3)
      × (find month_names (month_name k) 0 ≡ some (3 * k))
unfolding is_month
month_facts k h = facts (month_name k) (3 * k) h
  where
    facts :
        (w : Text) (at : ℕ)
        → (no_space w && ((length w == 3) && found_at w at)) ≡ true
        → (no_space w ≡ true) × (length w ≡ 3) × (find month_names w 0 ≡ some at)
    facts w at h = ground arith

scan-day_year :
    (day year : ℕ)
    → day < 100
    → year < 10000
    → scan (space ∷ an_int ∷ space ∷ an_int ∷ []) (
        32
        ∷ ((if ltb day 10 then 32 ∷ padded 1 day else padded 2 day) ++ 32 ∷ (padded 4 year ++ [])))
      ≡ day ∷ year ∷ []
unfolding scan
scan-day_year day year d y =
    let last = ap (λ vs. day ∷ vs) (scan-last 3 year (omega arith) (omega arith)) in
    elim (Bool-cases (ltb day 10)) [
      | inl e ↦ rw e (
          scan-space (space ∷ an_int ∷ []) (32 ∷ (padded 1 day ++ 32 ∷ (padded 4 year ++ [])))
          ∙ scan-field_space 0 day [] (padded 4 year ++ []) (ground arith) (omega arith)
          ∙ last)
      | inr e ↦ rw e (
          scan-space (space ∷ an_int ∷ []) (padded 2 day ++ 32 ∷ (padded 4 year ++ []))
          ∙ scan-field_space 1 day [] (padded 4 year ++ []) (omega arith) (omega arith)
          ∙ last)
    ]

-- The month in front of a space, and the numbers behind that
date_read :
    {Time : Type 0} (mktime : Tm → Time) (stack : Stack) (w rest : Text) (at day year : ℕ)
    → no_space w ≡ true
    → length w ≡ 3
    → find month_names w 0 ≡ some at
    → scan (space ∷ an_int ∷ space ∷ an_int ∷ []) (32 ∷ rest) ≡ day ∷ year ∷ []
    → time_from_string_date mktime stack (w ++ 32 ∷ rest)
      ≡ some (
          mktime (record {
            tm_year = minus year 1900;
            tm_mon = at / 3;
            tm_mday = day;
            tm_hour = 0;
            tm_min = 0;
            tm_sec = 0;
            tm_isdst = 2 ^ 32 - 1;
          }))
unfolding time_from_string_date date_of
date_read mktime stack w rest at day year whole long found read =
    let split : word (skip_space (w ++ 32 ∷ rest)) ≡ (w, 32 ∷ rest) =
      ap word (skip_space-no_space w (32 ∷ rest) whole (omega arith))
      ∙ word-no_space w rest whole in
    rw (split, long, found, read) refl

-- `timeFromStringDate` of the date of a build, "Mmm dd yyyy" with a space before a day of one digit, hands to
-- `mktime` its month from 0 on, its day, and its year less 1900, with nothing undefined and whatever the
-- variables held before.
pub time_from_string_date-print_date :
    {Time : Type 0} (mktime : Tm → Time) (stack : Stack) (month day year : ℕ)
    → month < 12
    → day < 100
    → 1900 ≤ year
    → year < 10000
    → time_from_string_date mktime stack (print_date month day year)
      ≡ some (
          mktime (record {
            tm_year = year - 1900;
            tm_mon = month;
            tm_mday = day;
            tm_hour = 0;
            tm_min = 0;
            tm_sec = 0;
            tm_isdst = 2 ^ 32 - 1;
          }))
unfolding print_date
time_from_string_date-print_date mktime stack month day year mm d low y =
    let (whole, long, found) =
      month_facts month (all_below_sound 12 is_month month months_right mm) in
    let third : 3 * month / 3 ≡ month = omega arith in
    let year_less : (year + 2 ^ 32 - 1900) % 2 ^ 32 ≡ year - 1900 = omega arith in
    date_read mktime stack (month_name month)
      ((if ltb day 10 then 32 ∷ padded 1 day else padded 2 day) ++ 32 ∷ (padded 4 year ++ []))
      (3 * month) day year whole long found (scan-day_year day year d y)
    ∙ rw (year_less, third) refl
