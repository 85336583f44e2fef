-- ===== src/TimeLimited/Tests.antt =====
-- Programs that are run on a machine whose settings are a function, and the theorems there.
use mathlib.Core.Logic.{ite}
use fbutils.Prelude.{
  ℕ, ℕ_discrete, ◌+◌, ◌-◌, ◌*◌, ◌^◌, ◌≤◌, ◌<◌, ◌≡◌, ◌↔◌, arith, true, false, some, [], ◌∷◌, ◌++◌,
  map, take,
}
use fbutils.Juce.{Juce, Text, swap, without}
use fbutils.TimeUtils.{Tm, Stack}
use fbutils.TimeUtils.BuildDate.{print_date}
use fbutils.BuildInfo.{build_info}
use fbutils.TimeLimited.{
  TimeLimitedFromBuild, is_outdated, get_remaining_days, limited_from_build, Options, Settings,
  Product,
}
use fbutils.TimeLimited.Limits.{limited_from_build_lem}

abbrev seconds : Tm → ℕ
seconds t = 86400 * (365 * t.tm_year + 31 * t.tm_mon + t.tm_mday)

abbrev stack : Stack
stack = record { number = λ i. 7; month = [] }

limited_from_build_lem_example :
    let built = seconds (record {
      tm_year = 2020 - 1900;
      tm_mon = 1;
      tm_mday = 9;
      tm_hour = 0;
      tm_min = 0;
      tm_sec = 0;
      tm_isdst = 2 ^ 32 - 1;
    }) in
    (p : TimeLimitedFromBuild) × (limited_from_build seconds stack
        (build_info (print_date 1 9 2020) [] false)
        30
        5
      ≡ some p)
    × (p.limit ≡ built + 86400 * 30)
    × ((now : ℕ) → (is_outdated p.limit now ≡ true) ↔ (built + 86400 * 30 < now))
    × (p.is_outdated_cached ≡ is_outdated p.limit 5)
    × ((now : ℕ)
        → now ≤ p.limit
        → built ≤ now
        → (86400 * get_remaining_days p.limit now ≤ p.limit - now)
          × (p.limit - now < 86400 * (get_remaining_days p.limit now + 1)))
limited_from_build_lem_example =
    limited_from_build_lem seconds stack 1 9 2020 [] false 30 5 (omega arith) (omega arith)
      (omega arith) (omega arith) (omega arith)

Entry-discrete : Discrete (Options × Text)
Entry-discrete = hlevel (ℕ_discrete)

abbrev first_code : Text → ℕ
first_code [] = 0
first_code (c ∷ s) = c

abbrev settings : Settings (Options × Text → Text)
settings = record {
  get_value = λ w o k. w (o, k);
  set_value = λ w o k v e. ite (Entry-discrete (o, k) e) v (w e);
  of_long = λ n. n ∷ [];
  get_double_value = first_code;
}

abbrev strings : Juce
strings = record {
  replace_characters = λ s from to. map (swap from to) s;
  remove_characters = λ s chars. without chars s;
  append = λ s t n. s ++ take n t;
  to_base64 = λ s. s;
  convert_from_base64 = λ t. (true, t);
  to_string = λ b. b;
}

abbrev product : Product
product = record {
  company_name = 67 ∷ [];
  sku = 83 ∷ [];
  version = 49 ∷ 46 ∷ 50 ∷ [];
  common_to_all_users = false;
  days = 30;
}

-- Another one, of another name and with other days
abbrev trial : Product
trial = record product { sku = 84 ∷ []; days = 7 }
