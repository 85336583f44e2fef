-- ===== src/TimeUtils/RoundTrip.antt =====
-- Dates that are printed are read back.
use fbutils.Prelude.{
  ℕ, suc, ◌+◌, ◌-◌, ◌%◌, ◌^◌, ◌≤◌, ◌<◌, ◌≡◌, refl, ◌∙◌, ap, arith, false, Bool-cases, inl, inr,
  List, [], ◌∷◌, ◌++◌,
}
use fbutils.TimeUtils.{
  Text, is_space, Tm, Stack, skip_space, starts_with_digit, word, Directive, an_int, literal, space,
  scan, ymd_format, ymdhms_format, time_from_ymd_string, time_from_ymdhms_string,
}
use fbutils.TimeUtils.Decimal.{padded, signed_int-padded}

-- "YYYY-MM-DD"
unfoldable pub print_ymd : ℕ → ℕ → ℕ → Text
print_ymd year month day = padded 4 year ++ 45 ∷ (padded 2 month ++ 45 ∷ (padded 2 day ++ []))

-- "YYYY-MM-DD HH:MM:SS"
unfoldable pub print_ymdhms : ℕ → ℕ → ℕ → ℕ → ℕ → ℕ → Text
print_ymdhms year month day hour minute second =
    padded 4 year
    ++ 45
      ∷ (padded 2 month
          ++ 45
            ∷ (padded 2 day
                ++ 32 ∷ (padded 2 hour ++ 58 ∷ (padded 2 minute ++ 58 ∷ (padded 2 second ++ [])))))

scan-int :
    (width n : ℕ) (ds : List Directive) (rest : Text)
    → n < 10 ^ suc width
    → n < 2 ^ 32
    → starts_with_digit rest ≡ false
    → scan (an_int ∷ ds) (padded (suc width) n ++ rest) ≡ n ∷ scan ds rest
unfolding scan
scan-int width n ds rest small word h = rw (signed_int-padded width n rest small word h, scan) refl

scan-literal :
    (c : ℕ) (ds : List Directive) (rest : Text) → scan (literal c ∷ ds) (c ∷ rest) ≡ scan ds rest
unfolding scan
scan-literal c ds rest = ground arith

-- A number with a literal behind it, and what follows that
scan-field :
    (width n c : ℕ) (ds : List Directive) (rest : Text)
    → n < 10 ^ suc width
    → n < 2 ^ 32
    → starts_with_digit (c ∷ []) ≡ false
    → scan (an_int ∷ literal c ∷ ds) (padded (suc width) n ++ c ∷ rest) ≡ n ∷ scan ds rest
scan-field width n c ds rest small word h =
    scan-int width n (literal c ∷ ds) (c ∷ rest) small word h
    ∙ ap (λ vs. n ∷ vs) (scan-literal c ds rest)

pub scan-last :
    (width n : ℕ)
    → n < 10 ^ suc width
    → n < 2 ^ 32
    → scan (an_int ∷ []) (padded (suc width) n ++ []) ≡ n ∷ []
unfolding scan
scan-last width n small word = scan-int width n [] [] small word refl

scan-print_ymd :
    (year month day : ℕ)
    → year < 10000
    → month < 100
    → day < 100
    → scan ymd_format (print_ymd year month day) ≡ year ∷ month ∷ day ∷ []
unfolding print_ymd
scan-print_ymd year month day y m d =
    scan-field 3 year 45 (an_int ∷ literal 45 ∷ an_int ∷ [])
      (padded 2 month ++ 45 ∷ (padded 2 day ++ [])) (omega arith) (omega arith) refl
    ∙ ap (λ vs. year ∷ vs)
        (scan-field 1 month 45 (an_int ∷ []) (padded 2 day ++ []) (omega arith) (omega arith) refl
          ∙ ap (λ vs. month ∷ vs) (scan-last 1 day (omega arith) (omega arith)))

skip_space_idem : (s : Text) → skip_space (skip_space s) ≡ skip_space s
unfolding skip_space
skip_space_idem [] = refl
skip_space_idem (c ∷ s) = elim (Bool-cases (is_space c)) [
  | inl e ↦ rw e (skip_space_idem s)
  | inr e ↦ rw e (rw e refl)
]

pub scan-space :
    (ds : List Directive) (rest : Text)
    → scan (space ∷ an_int ∷ ds) (32 ∷ rest) ≡ scan (an_int ∷ ds) rest
unfolding scan
scan-space ds rest = rw (skip_space_idem rest) refl

-- A number with a space behind it, before another number
pub scan-field_space :
    (width n : ℕ) (ds : List Directive) (rest : Text)
    → n < 10 ^ suc width
    → n < 2 ^ 32
    → scan (an_int ∷ space ∷ an_int ∷ ds) (padded (suc width) n ++ 32 ∷ rest)
      ≡ n ∷ scan (an_int ∷ ds) rest
unfolding scan
scan-field_space width n ds rest small word =
    scan-int width n (space ∷ an_int ∷ ds) (32 ∷ rest) small word refl
    ∙ ap (λ vs. n ∷ vs) (scan-space ds rest)

scan-print_ymdhms :
    (year month day hour minute second : ℕ)
    → year < 10000
    → month < 100
    → day < 100
    → hour < 100
    → minute < 100
    → second < 100
    → scan ymdhms_format (print_ymdhms year month day hour minute second)
      ≡ year ∷ month ∷ day ∷ hour ∷ minute ∷ second ∷ []
unfolding print_ymdhms
scan-print_ymdhms year month day hour minute second y m d h n s =
    let time = padded 2 hour ++ 58 ∷ (padded 2 minute ++ 58 ∷ (padded 2 second ++ [])) in
    let time_format = an_int ∷ literal 58 ∷ an_int ∷ literal 58 ∷ an_int ∷ [] in
    scan-field 3 year 45 (an_int ∷ literal 45 ∷ an_int ∷ space ∷ time_format)
      (padded 2 month ++ 45 ∷ (padded 2 day ++ 32 ∷ time)) (omega arith) (omega arith) refl
    ∙ ap (λ vs. year ∷ vs)
        (scan-field 1 month 45 (an_int ∷ space ∷ time_format) (padded 2 day ++ 32 ∷ time)
            (omega arith) (omega arith) refl
          ∙ ap (λ vs. month ∷ vs)
              (scan-field_space 1 day (literal 58 ∷ an_int ∷ literal 58 ∷ an_int ∷ []) time
                  (omega arith) (omega arith)
                ∙ ap (λ vs. day ∷ vs) (scan-time hour minute second h n s)))
  where
    scan-time :
        (hour minute second : ℕ)
        → hour < 100
        → minute < 100
        → second < 100
        → scan
            (an_int ∷ literal 58 ∷ an_int ∷ literal 58 ∷ an_int ∷ [])
            (padded 2 hour ++ 58 ∷ (padded 2 minute ++ 58 ∷ (padded 2 second ++ [])))
          ≡ hour ∷ minute ∷ second ∷ []
    scan-time hour minute second h n s =
        scan-field 1 hour 58 (an_int ∷ literal 58 ∷ an_int ∷ [])
          (padded 2 minute ++ 58 ∷ (padded 2 second ++ [])) (omega arith) (omega arith) refl
        ∙ ap (λ vs. hour ∷ vs)
            (scan-field 1 minute 58 (an_int ∷ []) (padded 2 second ++ []) (omega arith)
                (omega arith) refl
              ∙ ap (λ vs. minute ∷ vs) (scan-last 1 second (omega arith) (omega arith)))

-- `timeFromYMDString` and `timeFromYMDHMSString` of a date printed with four digits for the year and two for
-- each other part hand to `mktime` exactly those parts, the year less 1900 and the month less 1, whatever the
-- variables held before.
pub time_from_printed :
    {Time : Type 0} (mktime : Tm → Time) (stack : Stack) (year month day hour minute second : ℕ)
    → 1900 ≤ year
    → year < 10000
    → 1 ≤ month
    → month < 100
    → day < 100
    → hour < 100
    → minute < 100
    → second < 100
    → (time_from_ymd_string mktime stack (print_ymd year month day)
        ≡ mktime (record {
          tm_year = year - 1900;
          tm_mon = month - 1;
          tm_mday = day;
          tm_hour = 0;
          tm_min = 0;
          tm_sec = 0;
          tm_isdst = 2 ^ 32 - 1;
        }))
      × (time_from_ymdhms_string mktime stack (print_ymdhms year month day hour minute second)
          ≡ mktime (record {
            tm_year = year - 1900;
            tm_mon = month - 1;
            tm_mday = day;
            tm_hour = hour;
            tm_min = minute;
            tm_sec = second;
            tm_isdst = 2 ^ 32 - 1;
          }))
unfolding time_from_ymd_string time_from_ymdhms_string
time_from_printed mktime stack year month day hour minute second low y first m d h n s =
    let year_less : (year + 2 ^ 32 - 1900) % 2 ^ 32 ≡ year - 1900 = omega arith in
    let month_less : (month + 2 ^ 32 - 1) % 2 ^ 32 ≡ month - 1 = omega arith in
    (
      rw (scan-print_ymd year month day y m d, year_less, month_less) refl,
      rw (scan-print_ymdhms year month day hour minute second y m d h n s, year_less, month_less)
          refl,
    )
