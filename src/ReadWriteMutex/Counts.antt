-- ===== src/ReadWriteMutex/Counts.antt =====
-- How many uses of the mutex stand where, across a step.
use fbutils.Prelude.{
  ℕ, ◌+◌, ◌≤◌, ◌≡◌, refl, some, List, [], ◌∷◌, ◌∙◌, map, arith, weigh, weigh-set, weigh-map,
  get_elem?, set, length, length-set, length-map,
}
use fbutils.ReadWriteMutex.System.{
  Pc, is_reading, is_writing, read_asleep, read_woken, write_asleep, write_woken, wake_reader,
}

-- The uses that read, write or wait to write are at most all of them.
weigh_all-le :
    (cs : List Pc)
    → weigh is_reading cs + weigh is_writing cs + weigh write_asleep cs + weigh write_woken cs
      ≤ length cs
weigh_all-le [] = omega arith
weigh_all-le (p ∷ cs) = ground (arith, weigh_all-le cs)

-- One use goes from `p` to `p'`.
pub record Moved (cs cs' : List Pc) (p p' : Pc) : Type 0 where
  pub size : length cs' ≡ length cs
  pub room :
      weigh is_reading cs' + weigh is_writing cs' + weigh write_asleep cs' + weigh write_woken cs'
      ≤ length cs'
  pub readers : weigh is_reading cs' + is_reading p ≡ weigh is_reading cs + is_reading p'
  pub writers : weigh is_writing cs' + is_writing p ≡ weigh is_writing cs + is_writing p'
  pub readers_asleep : weigh read_asleep cs' + read_asleep p ≡ weigh read_asleep cs + read_asleep p'
  pub readers_woken : weigh read_woken cs' + read_woken p ≡ weigh read_woken cs + read_woken p'
  pub writers_asleep :
      weigh write_asleep cs' + write_asleep p ≡ weigh write_asleep cs + write_asleep p'
  pub writers_woken : weigh write_woken cs' + write_woken p ≡ weigh write_woken cs + write_woken p'

pub Moved-set :
    (cs : List Pc) (i : ℕ) {p : Pc} (p' : Pc)
    → get_elem? cs i ≡ some p
    → Moved cs (set cs i p') p p'
Moved-set cs i p' h = record {
  size = length-set cs i p';
  room = weigh_all-le (set cs i p');
  readers = weigh-set is_reading cs i p' h;
  writers = weigh-set is_writing cs i p' h;
  readers_asleep = weigh-set read_asleep cs i p' h;
  readers_woken = weigh-set read_woken cs i p' h;
  writers_asleep = weigh-set write_asleep cs i p' h;
  writers_woken = weigh-set write_woken cs i p' h;
}

-- Every reader that sleeps is woken.
pub record Roused (cs cs' : List Pc) : Type 0 where
  pub size : length cs' ≡ length cs
  pub readers : weigh is_reading cs' ≡ weigh is_reading cs
  pub writers : weigh is_writing cs' ≡ weigh is_writing cs
  pub readers_asleep : weigh read_asleep cs' ≡ 0
  pub writers_asleep : weigh write_asleep cs' ≡ weigh write_asleep cs
  pub writers_woken : weigh write_woken cs' ≡ weigh write_woken cs

abbrev none_of : Pc → ℕ
none_of _ = 0

weigh-none_of : (cs : List Pc) → weigh none_of cs ≡ 0
weigh-none_of [] = refl
weigh-none_of (p ∷ cs) = omega (arith, weigh-none_of cs)

pub Roused-map : (cs : List Pc) → Roused cs (map wake_reader cs)
Roused-map cs = record {
  size = length-map cs wake_reader;
  readers = weigh-map is_reading is_reading wake_reader (λ p. ground arith) cs;
  writers = weigh-map is_writing is_writing wake_reader (λ p. ground arith) cs;
  readers_asleep =
      weigh-map read_asleep none_of wake_reader (λ p. ground arith) cs ∙ weigh-none_of cs;
  writers_asleep = weigh-map write_asleep write_asleep wake_reader (λ p. ground arith) cs;
  writers_woken = weigh-map write_woken write_woken wake_reader (λ p. ground arith) cs;
}
