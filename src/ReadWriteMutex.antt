-- ===== src/ReadWriteMutex.antt =====
-- include/fbu/read_write_mutex.hpp: `fbu::ReadWriteMutex`, `fbu::ReadLock` and `fbu::WriteLock`.
--
-- A method holds `mMutex` from its first line to its return or to a wait on a condition variable, and
-- the three atomics are touched nowhere else: what it does in between is one function of the fields.
-- A method that waits goes on, once it is woken, with the test of its `while` again.
pub mod System
mod Counts
pub mod Invariant
pub mod Safety
pub mod Progress
pub mod Service
pub mod Spec
pub mod Scoped
mod Tests
use fbutils.Prelude.{
  ℕ, ◌+◌, ◌-◌, ◌%◌, ◌^◌, Bool, true, false, not, ◌||◌, ==_refl, ◌==◌, if◌then◌else◌,
}

-- The three atomics. The counters are `unsigned int`, of 32 bits.
pub record Monitor : Type 0 where
  pub read_locked : ℕ
  pub write_waiting : ℕ
  pub write_locked : Bool

-- What a method signals before it lets go of `mMutex`.
pub data Notice : Type 0 where
  nobody : Notice
  one_writer : Notice  -- mWritingAllowed.notify_one()
  all_readers : Notice  -- mReadingAllowed.notify_all()

-- How a stretch under `mMutex` ends: by a return, with the method's result (`true` where it returns
-- nothing); by a wait on its condition variable; by a failed assertion.
pub data Exit : Type 0 where
  returns : Bool → Monitor → Notice → Exit
  waits : Monitor → Exit
  asserts : Exit

abbrev pub increment : ℕ → ℕ
increment n = (n + 1) % 2 ^ 32

abbrev pub decrement : ℕ → ℕ
decrement n = (n + (2 ^ 32 - 1)) % 2 ^ 32

-- The constructor.
abbrev pub unlocked : Monitor
unlocked = record { read_locked = 0; write_waiting = 0; write_locked = false }

-- From the test of the `while` in `lock_shared`.
unfoldable pub lock_shared : Monitor → Exit
lock_shared m =
    if m.write_locked || not (m.write_waiting == 0)
    then waits m
    else returns true (record m { read_locked = increment m.read_locked }) Notice.nobody

-- `owns`: whether `std::try_to_lock` got hold of `mMutex`.
unfoldable pub try_lock_shared : Bool → Monitor → Exit
try_lock_shared owns m =
    if not owns
    then returns false m Notice.nobody
    else (if m.write_locked || not (m.write_waiting == 0)
        then returns false m Notice.nobody
        else returns true (record m { read_locked = increment m.read_locked }) Notice.nobody)

unfoldable pub unlock_shared : Monitor → Exit
unlock_shared m =
    if m.read_locked == 0
    then asserts
    else (let left = decrement m.read_locked in
        returns true (record m { read_locked = left })
          (if left == 0 then Notice.one_writer else Notice.nobody))

-- From the test of the `while` in `lock`.
unfoldable pub lock_again : Monitor → Exit
lock_again m =
    if m.write_locked || not (m.read_locked == 0)
    then waits m
    else returns true (record m { write_locked = true; write_waiting = decrement m.write_waiting })
        Notice.nobody

unfoldable pub lock : Monitor → Exit
unfolding lock_again
lock m = lock_again (record m { write_waiting = increment m.write_waiting })

unfoldable pub try_lock : Bool → Monitor → Exit
try_lock owns m =
    if not owns
    then returns false m Notice.nobody
    else (if m.write_locked || not (m.read_locked == 0)
        then returns false m Notice.nobody
        else returns true (record m { write_locked = true }) Notice.nobody)

unfoldable pub unlock : Monitor → Exit
unlock m =
    if m.write_locked
    then returns true (record m { write_locked = false })
        (if m.write_waiting == 0 then Notice.all_readers else Notice.one_writer)
    else asserts
