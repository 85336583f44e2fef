-- ===== src/BuildInfo.antt =====
-- include/fbu/build_info.hpp and include/fbu/build_info.cpp: the date and the time of the build, which the
-- compiler puts in for `__DATE__` and `__TIME__`, and whether it is one for debugging.
use fbutils.Prelude.{ℕ, Bool, List, [], ◌∷◌, if◌then◌else◌}

pub record BuildInfo : Type 0 where
  pub date : List ℕ
  pub time : List ℕ
  pub release : List ℕ

abbrev pub debug_name : List ℕ
debug_name = 68 ∷ 101 ∷ 98 ∷ 117 ∷ 103 ∷ []

abbrev pub release_name : List ℕ
release_name = 82 ∷ 101 ∷ 108 ∷ 101 ∷ 97 ∷ 115 ∷ 101 ∷ []

-- The constructor, for what the compiler puts in, and so `getBuildInfo`, whose one object it makes
unfoldable pub build_info : List ℕ → List ℕ → Bool → BuildInfo
build_info date time debug = record {
  date = date;
  time = time;
  release = (if debug then debug_name else release_name);
}
