-- ===== src/ThreadPool/Counts.antt =====
-- How many workers of a pool stand where, across a step.
use fbutils.Prelude.{
  ℕ, ◌+◌, ◌≤◌, ◌≡◌, ◌∙◌, refl, Option, none, some, List, [], ◌∷◌, map, arith, weigh, weigh-set,
  weigh-map, weigh-append, get_elem?, set, length, length-set, length-map, ◌==◌, if◌then◌else◌,
}
use fbutils.ThreadPool.System.{
  Pc, head, at_lock, tested, passed, running, finishing, is_asleep, is_exited, wake, log,
}

-- counted in `mNumBusyThreads`
abbrev pub is_busy : Pc → ℕ
is_busy (running job) = 1
is_busy finishing = 1
is_busy _ = 0

abbrev pub is_tested : Pc → ℕ
is_tested tested = 1
is_tested _ = 0

abbrev pub is_passed : Pc → ℕ
is_passed passed = 1
is_passed _ = 0

abbrev pub same : ℕ → ℕ → ℕ
same j k = if j == k then 1 else 0

-- in the middle of the job `j`
abbrev pub runs : ℕ → Pc → ℕ
runs j (running (some k)) = same j k
runs j _ = 0

-- How often `j` stands in a list of jobs.
abbrev pub count : ℕ → List ℕ → ℕ
count j = weigh (same j)

abbrev pub count_in : ℕ → Option ℕ → ℕ
count_in j none = 0
count_in j (some k) = same j k

pub count-log :
    (j : ℕ) (o : Option ℕ) (js : List ℕ) → count j (log o js) ≡ count j js + count_in j o
count-log j none js = omega arith
count-log j (some k) js = omega (arith, weigh-append (same j) js (k ∷ []))

-- The places that exclude one another.
weigh_all-le :
    (ws : List Pc)
    → weigh is_busy ws
        + weigh is_tested ws
        + weigh is_passed ws
        + weigh is_asleep ws
        + weigh is_exited ws
      ≤ length ws
weigh_all-le [] = omega arith
weigh_all-le (p ∷ ws) = ground (arith, weigh_all-le ws)

pub weigh_exited-le : (ws : List Pc) → weigh is_exited ws + weigh is_asleep ws ≤ length ws
weigh_exited-le ws = omega (arith, weigh_all-le ws)

-- One worker goes from `p` to `p'`.
pub record Moved (ws ws' : List Pc) (p p' : Pc) : Type 0 where
  pub size : length ws' ≡ length ws
  pub room :
      weigh is_busy ws'
        + weigh is_tested ws'
        + weigh is_passed ws'
        + weigh is_asleep ws'
        + weigh is_exited ws'
      ≤ length ws'
  pub busy : weigh is_busy ws' + is_busy p ≡ weigh is_busy ws + is_busy p'
  pub tested : weigh is_tested ws' + is_tested p ≡ weigh is_tested ws + is_tested p'
  pub passed : weigh is_passed ws' + is_passed p ≡ weigh is_passed ws + is_passed p'
  pub asleep : weigh is_asleep ws' + is_asleep p ≡ weigh is_asleep ws + is_asleep p'
  pub exited : weigh is_exited ws' + is_exited p ≡ weigh is_exited ws + is_exited p'

pub Moved-set :
    (ws : List Pc) (i : ℕ) {p : Pc} (p' : Pc)
    → get_elem? ws i ≡ some p
    → Moved ws (set ws i p') p p'
Moved-set ws i p' h = record {
  size = length-set ws i p';
  room = weigh_all-le (set ws i p');
  busy = weigh-set is_busy ws i p' h;
  tested = weigh-set is_tested ws i p' h;
  passed = weigh-set is_passed ws i p' h;
  asleep = weigh-set is_asleep ws i p' h;
  exited = weigh-set is_exited ws i p' h;
}

none_of : Pc → ℕ
none_of p = 0

weigh-none_of : (ws : List Pc) → weigh none_of ws ≡ 0
unfolding none_of
weigh-none_of [] = refl
weigh-none_of (p ∷ ws) = omega (arith, weigh-none_of ws)

-- Every worker that sleeps is woken.
pub record Roused (ws ws' : List Pc) : Type 0 where
  pub size : length ws' ≡ length ws
  pub busy : weigh is_busy ws' ≡ weigh is_busy ws
  pub tested : weigh is_tested ws' ≡ weigh is_tested ws
  pub passed : weigh is_passed ws' ≡ weigh is_passed ws
  pub asleep : weigh is_asleep ws' ≡ 0
  pub exited : weigh is_exited ws' ≡ weigh is_exited ws
  pub jobs : (j : ℕ) → weigh (runs j) ws' ≡ weigh (runs j) ws

pub Roused-map : (ws : List Pc) → Roused ws (map wake ws)
unfolding none_of
Roused-map ws = record {
  size = length-map ws wake;
  busy = weigh-map is_busy is_busy wake (λ p. ground arith) ws;
  tested = weigh-map is_tested is_tested wake (λ p. ground arith) ws;
  passed = weigh-map is_passed is_passed wake (λ p. ground arith) ws;
  asleep = weigh-map is_asleep none_of wake (λ p. ground arith) ws ∙ weigh-none_of ws;
  exited = weigh-map is_exited is_exited wake (λ p. ground arith) ws;
  jobs = λ j. weigh-map (runs j) (runs j) wake (λ p. runs-wake j p) ws;
}
  where
    runs-wake : (j : ℕ) (p : Pc) → runs j (wake p) ≡ runs j p
    runs-wake j (running (some k)) = refl
    runs-wake j (running none) = refl
    runs-wake j head = refl
    runs-wake j at_lock = refl
    runs-wake j Pc.tested = refl
    runs-wake j Pc.asleep = refl
    runs-wake j Pc.passed = refl
    runs-wake j finishing = refl
    runs-wake j Pc.exited = refl
