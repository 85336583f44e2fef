-- ===== src/TimeLimited.antt =====
-- include/fbu/time_limited.hpp: programs that work for a number of days, from their build or from their
-- first run. A time is its seconds since 1970, and the `int` product of the days fits for up to 24855 days.
-- The settings of JUCE, the clock and `mktime` are parameters.
pub mod Limits
mod Tests
use fbutils.Prelude.{
  ℕ, ◌+◌, ◌-◌, ◌*◌, ◌/◌, ◌%◌, ◌^◌, ◌<◌, ◌≡◌, ◌≢◌, Bool, true, false, ltb, leb, Option, none, some,
  List, [], ◌∷◌, ◌++◌, if◌then◌else◌, ◌>>=◌,
}
use fbutils.Juce.{Juce, Text}
use fbutils.TimeUtils.{Tm, Stack, time_from_string_date}
use fbutils.BuildInfo.{BuildInfo}

-- `difftime(lNow, mLimit) > 0.`, which is `isOutdated` of both classes
unfoldable pub is_outdated : ℕ → ℕ → Bool
is_outdated limit now = ltb limit now

-- `getRemainingDays`, which cuts off towards 0, as the 32 bits of an `int`
unfoldable pub get_remaining_days : ℕ → ℕ → ℕ
get_remaining_days limit now =
    if leb now limit
    then (limit - now) / (24 * 3600) % 2 ^ 32
    else (2 ^ 32 - (now - limit) / (24 * 3600) % 2 ^ 32) % 2 ^ 32

-- `TimeLimitedFromBuild`
pub record TimeLimitedFromBuild : Type 0 where
  pub limit : ℕ
  pub is_outdated_cached : Bool

-- The constructor, at a time of the clock
unfoldable pub limited_from_build :
    (Tm → ℕ) → Stack → BuildInfo → ℕ → ℕ → Option TimeLimitedFromBuild
unfolding time_from_string_date is_outdated
limited_from_build mktime stack info days now = do
  built ← time_from_string_date mktime stack info.date
  some (record {
    limit = built + days * 24 * 3600;
    is_outdated_cached = is_outdated (built + days * 24 * 3600) now;
  })

-- What the options of the settings depend on
pub record Options : Type 0 where
  pub application_name : Text
  pub folder_name : Text
  pub common_to_all_users : Bool

-- `PropertiesFile` and the conversions of `String`, over the state of the machine
pub record Settings (W : Type 0) : Type 0 where
  pub get_value : W → Options → Text → Text
  pub set_value : W → Options → Text → Text → W
  pub of_long : ℕ → Text
  pub get_double_value : Text → ℕ

-- What JUCE documents of them.
pub record IsSettings {W : Type 0} (f : Settings W) : Type 0 where
  pub get-set : (w : W) (o : Options) (k v : Text) → f.get_value (f.set_value w o k v) o k ≡ v
  pub get-set_other :
      (w : W) (o o' : Options) (k k' v : Text)
      → ◌≢◌ {A = Options × Text} (o, k) (o', k')
      → f.get_value (f.set_value w o k v) o' k' ≡ f.get_value w o' k'
  pub read-of_long : (n : ℕ) → n < 2 ^ 53 → f.get_double_value (f.of_long n) ≡ n
  pub of_long_not_empty : (n : ℕ) → f.of_long n ≢ []

abbrev pub is_empty : Text → Bool
is_empty [] = true
is_empty (c ∷ s) = false

-- The arguments of the constructor of `TimeLimitedFromFirstRun`, and of its template
pub record Product : Type 0 where
  pub company_name : Text
  pub sku : Text
  pub version : Text
  pub common_to_all_users : Bool
  pub days : ℕ  -- `DAYSAFTERFIRSTRUN`

abbrev pub options_of : Product → Options
options_of p = record {
  application_name = 46 ∷ p.sku;
  folder_name = p.company_name;
  common_to_all_users = p.common_to_all_users;
}

module _ {W : Type 0} (juce : Juce) (f : Settings W) where
  -- `lVersion`
  abbrev pub key_of : Product → Text
  key_of p = juce.replace_characters p.version (46 ∷ []) (112 ∷ [])

  -- The constructor, at a time of the clock: the limit, and the machine
  unfoldable pub limited_from_first_run : Product → ℕ → W → ℕ × W
  limited_from_first_run p now w =
      let limit_string = f.get_value w (options_of p) (key_of p) in
      let limit = now + p.days * 24 * 3600 in
      if is_empty limit_string
      then (limit, f.set_value w (options_of p) (key_of p) (f.of_long limit))
      else (f.get_double_value limit_string, w)

  -- Runs of any products, one after the other
  unfoldable pub run_all : List (Product × ℕ) → W → W
  unfolding limited_from_first_run
  run_all [] w = w
  run_all ((p, now) ∷ runs) w = run_all runs (limited_from_first_run p now w).1
