-- ===== src/TimeUtils/Tests.antt =====
-- Dates, and texts that are none.
use fbutils.Prelude.{◌-◌, ◌*◌, ◌^◌, ◌≡◌, refl, arith, some, none, [], ◌∷◌}
use fbutils.TimeUtils.{
  Tm, Stack, time_from_ymd_string, time_from_ymdhms_string, time_from_string_date,
  seconds_since_epoch,
}
use fbutils.TimeUtils.Decimal.{padded}
use fbutils.TimeUtils.RoundTrip.{print_ymd, print_ymdhms, time_from_printed}
use fbutils.TimeUtils.BuildDate.{print_date, time_from_string_date-print_date}

abbrev parts : Tm → Tm
parts t = t

abbrev stack : Stack
stack = record { number = λ i. 1907; month = [] }

printed : print_ymd 2020 2 9 ≡ 50 ∷ 48 ∷ 50 ∷ 48 ∷ 45 ∷ 48 ∷ 50 ∷ 45 ∷ 48 ∷ 57 ∷ []
unfolding print_ymd padded
printed = refl

-- What is no date gives the time of what the variables held.
no_date : (time_from_ymd_string parts stack (120 ∷ [])).tm_year ≡ 7
unfolding time_from_ymd_string
no_date = refl

-- A word of five letters does not fit `s_month`.
too_long : time_from_string_date parts stack (77 ∷ 97 ∷ 114 ∷ 99 ∷ 104 ∷ 32 ∷ 49 ∷ []) ≡ none
unfolding time_from_string_date
too_long = refl

time_from_printed_example :
    (time_from_ymd_string parts stack (print_ymd 2020 2 9) ≡ record {
      tm_year = 2020 - 1900;
      tm_mon = 2 - 1;
      tm_mday = 9;
      tm_hour = 0;
      tm_min = 0;
      tm_sec = 0;
      tm_isdst = 2 ^ 32 - 1;
    })
    × (time_from_ymdhms_string parts stack (print_ymdhms 2020 2 9 23 59 58) ≡ record {
      tm_year = 2020 - 1900;
      tm_mon = 2 - 1;
      tm_mday = 9;
      tm_hour = 23;
      tm_min = 59;
      tm_sec = 58;
      tm_isdst = 2 ^ 32 - 1;
    })
time_from_printed_example =
    time_from_printed parts stack 2020 2 9 23 59 58 (omega arith) (omega arith) (omega arith)
      (omega arith) (omega arith) (omega arith) (omega arith) (omega arith)

time_from_string_date-print_date_example :
    time_from_string_date parts stack (print_date 11 9 2020)
    ≡ some (record {
      tm_year = 2020 - 1900;
      tm_mon = 11;
      tm_mday = 9;
      tm_hour = 0;
      tm_min = 0;
      tm_sec = 0;
      tm_isdst = 2 ^ 32 - 1;
    })
time_from_string_date-print_date_example =
    time_from_string_date-print_date parts stack 11 9 2020 (omega arith) (omega arith) (omega arith)
      (omega arith)

-- With a clock of nanoseconds
last_nanosecond : seconds_since_epoch (10 ^ 9) (2 * 10 ^ 9 - 1) ≡ 1
unfolding seconds_since_epoch
last_nanosecond = refl
