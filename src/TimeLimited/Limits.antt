-- ===== src/TimeLimited/Limits.antt =====
-- The limit from the build follows the date of the build, and the limit from the first run is kept.
use fbutils.Prelude.{ℕ, ◌+◌, ◌-◌, ◌*◌, ◌^◌, ◌≤◌, ◌<◌, ◌≡◌, refl, arith, Bool, true, ltb, some, ◌↔◌}
use fbutils.Juce.{Juce, Text}
use fbutils.TimeUtils.{Tm, Stack}
use fbutils.TimeUtils.BuildDate.{print_date, time_from_string_date-print_date}
use fbutils.BuildInfo.{build_info}
use fbutils.TimeLimited.{
  TimeLimitedFromBuild, is_outdated, get_remaining_days, limited_from_build, Settings, IsSettings,
  Product, options_of, key_of,
}

-- A program built on a date of the years 1900 to 9999, as `__DATE__` has it, that may be used for at most
-- 24855 days: its limit is that many days of 24 hours after the time that `mktime` gives for the date; it
-- is outdated exactly behind the limit, and the cached answer is the one at the time of the construction;
-- from the build up to the limit, the remaining days are the whole days up to it.
pub limited_from_build_lem :
    (mktime : Tm → ℕ) (stack : Stack) (month day year : ℕ) (time : Text) (debug : Bool)
    (days start : ℕ)
    → month < 12
    → day < 100
    → 1900 ≤ year
    → year < 10000
    → days ≤ 24855
    → let built = mktime (record {
      tm_year = year - 1900;
      tm_mon = month;
      tm_mday = day;
      tm_hour = 0;
      tm_min = 0;
      tm_sec = 0;
      tm_isdst = 2 ^ 32 - 1;
    }) in
      (p : TimeLimitedFromBuild) × (limited_from_build mktime stack
          (build_info (print_date month day year) time debug)
          days
          start
        ≡ some p)
      × (p.limit ≡ built + 86400 * days)
      × ((now : ℕ) → (is_outdated p.limit now ≡ true) ↔ (built + 86400 * days < now))
      × (p.is_outdated_cached ≡ is_outdated p.limit start)
      × ((now : ℕ)
          → now ≤ p.limit
          → built ≤ now
          → (86400 * get_remaining_days p.limit now ≤ p.limit - now)
            × (p.limit - now < 86400 * (get_remaining_days p.limit now + 1)))
unfolding limited_from_build build_info is_outdated get_remaining_days
limited_from_build_lem mktime stack month day year time debug days start m d low y few =
    let built = mktime (record {
      tm_year = year - 1900;
      tm_mon = month;
      tm_mday = day;
      tm_hour = 0;
      tm_min = 0;
      tm_sec = 0;
      tm_isdst = 2 ^ 32 - 1;
    }) in
    (
      record {
        limit = built + days * 24 * 3600;
        is_outdated_cached = is_outdated (built + days * 24 * 3600) start;
      },
      rw (time_from_string_date-print_date mktime stack month day year m d low y) refl,
      omega arith,
      λ now. outdated built days now,
      refl,
      λ now early late. remaining built days now few early late,
    )
  where
    outdated :
        (built days now : ℕ)
        → (ltb (built + days * 24 * 3600) now ≡ true) ↔ (built + 86400 * days < now)
    outdated built days now = (λ h. ground arith, λ h. ground arith)

    remaining :
        (built days now : ℕ)
        → days ≤ 24855
        → now ≤ built + days * 24 * 3600
        → built ≤ now
        → let left = get_remaining_days (built + days * 24 * 3600) now in
          (86400 * left ≤ built + days * 24 * 3600 - now)
          × (built + days * 24 * 3600 - now < 86400 * (left + 1))
    remaining built days now few early late = ground arith

module _ {W : Type 0} (juce : Juce) (f : Settings W) (documented : IsSettings f) where
  stored : (p : Product) (w : W) → Text
  stored p w = f.get_value w (options_of p) (key_of juce f p)
