-- ===== src/ReadWriteMutex/System.antt =====
-- Any number of uses of one `ReadWriteMutex`, interleaved in any order.
use fbutils.Prelude.{ℕ, ◌≡◌, Bool, true, false, some, List, map, weigh, get_elem?, set, replicate}
use fbutils.ReadWriteMutex
use fbutils.ReadWriteMutex.{
  Monitor, Notice, nobody, one_writer, all_readers, Exit, returns, waits, unlocked,
}

-- Where one use of the mutex stands. A thread that holds several read locks is several of them, which make
-- their steps in any order here: all runs of the program are among these. Service.antt has what a thread
-- that waits cannot do.
pub data Pc : Type 0 where
  idle : Pc
  reading : Pc
  writing : Pc
  read_blocked : (woken : Bool) → Pc  -- in `mReadingAllowed.wait`
  write_blocked : (woken : Bool) → Pc  -- in `mWritingAllowed.wait`

-- One stretch under `mMutex`: what it does to the fields, where it leaves the caller, whom it signals.
pub data Move (m : Monitor) : Pc → Pc → Monitor → Notice → Type 0 where
  read_entry :
      {m' : Monitor}
      → ReadWriteMutex.lock_shared m ≡ returns true m' nobody
      → Move m idle reading m' nobody
  read_wait :
      {m' : Monitor}
      → ReadWriteMutex.lock_shared m ≡ waits m'
      → Move m idle (read_blocked false) m' nobody
  read_resume :
      {m' : Monitor}
      → ReadWriteMutex.lock_shared m ≡ returns true m' nobody
      → Move m (read_blocked true) reading m' nobody
  read_again :
      {m' : Monitor}
      → ReadWriteMutex.lock_shared m ≡ waits m'
      → Move m (read_blocked true) (read_blocked false) m' nobody
  try_read :
      (owns : Bool) {m' : Monitor}
      → ReadWriteMutex.try_lock_shared owns m ≡ returns true m' nobody
      → Move m idle reading m' nobody
  try_read_fails :
      (owns : Bool) {m' : Monitor}
      → ReadWriteMutex.try_lock_shared owns m ≡ returns false m' nobody
      → Move m idle idle m' nobody
  read_exit :
      {m' : Monitor} {n : Notice}
      → ReadWriteMutex.unlock_shared m ≡ returns true m' n
      → Move m reading idle m' n
  write_entry :
      {m' : Monitor}
      → ReadWriteMutex.lock m ≡ returns true m' nobody
      → Move m idle writing m' nobody
  write_wait :
      {m' : Monitor}
      → ReadWriteMutex.lock m ≡ waits m'
      → Move m idle (write_blocked false) m' nobody
  write_resume :
      {m' : Monitor}
      → ReadWriteMutex.lock_again m ≡ returns true m' nobody
      → Move m (write_blocked true) writing m' nobody
  write_again :
      {m' : Monitor}
      → ReadWriteMutex.lock_again m ≡ waits m'
      → Move m (write_blocked true) (write_blocked false) m' nobody
  try_write :
      (owns : Bool) {m' : Monitor}
      → ReadWriteMutex.try_lock owns m ≡ returns true m' nobody
      → Move m idle writing m' nobody
  try_write_fails :
      (owns : Bool) {m' : Monitor}
      → ReadWriteMutex.try_lock owns m ≡ returns false m' nobody
      → Move m idle idle m' nobody
  write_exit :
      {m' : Monitor} {n : Notice}
      → ReadWriteMutex.unlock m ≡ returns true m' n
      → Move m writing idle m' n

abbrev pub is_reading : Pc → ℕ
is_reading reading = 1
is_reading _ = 0

abbrev pub is_writing : Pc → ℕ
is_writing writing = 1
is_writing _ = 0

abbrev pub read_asleep : Pc → ℕ
read_asleep (read_blocked false) = 1
read_asleep _ = 0

abbrev pub read_woken : Pc → ℕ
read_woken (read_blocked true) = 1
read_woken _ = 0

abbrev pub write_asleep : Pc → ℕ
write_asleep (write_blocked false) = 1
write_asleep _ = 0

abbrev pub write_woken : Pc → ℕ
write_woken (write_blocked true) = 1
write_woken _ = 0

abbrev pub wake_reader : Pc → Pc
wake_reader (read_blocked w) = read_blocked true
wake_reader idle = idle
wake_reader reading = reading
wake_reader writing = writing
wake_reader (write_blocked w) = write_blocked w

-- `notify_one` wakes one sleeping writer, any one, and does nothing where none sleeps.
pub data Delivered : Notice → List Pc → List Pc → Type 0 where
  to_nobody : {cs : List Pc} → Delivered nobody cs cs
  none_asleep : {cs : List Pc} → weigh write_asleep cs ≡ 0 → Delivered one_writer cs cs
  to_writer :
      {cs : List Pc} (j : ℕ)
      → get_elem? cs j ≡ some (write_blocked false)
      → Delivered one_writer cs (set cs j (write_blocked true))
  to_readers : {cs : List Pc} → Delivered all_readers cs (map wake_reader cs)

pub record System : Type 0 where
  pub monitor : Monitor
  pub uses : List Pc

-- A wait may also end with no signal.
pub data Step (s : System) : System → Type 0 where
  move :
      (i : ℕ) {p p' : Pc} {m' : Monitor} {n : Notice} {cs : List Pc}
      → get_elem? s.uses i ≡ some p
      → Move s.monitor p p' m' n
      → Delivered n (set s.uses i p') cs
      → Step s (record { monitor = m'; uses = cs })
  spurious_reader :
      (i : ℕ)
      → get_elem? s.uses i ≡ some (read_blocked false)
      → Step s (record { monitor = s.monitor; uses = set s.uses i (read_blocked true) })
  spurious_writer :
      (i : ℕ)
      → get_elem? s.uses i ≡ some (write_blocked false)
      → Step s (record { monitor = s.monitor; uses = set s.uses i (write_blocked true) })

abbrev pub init : ℕ → System
init n = record { monitor = unlocked; uses = replicate n idle }

pub data Reach (n : ℕ) : System → Type 0 where
  start : Reach n (init n)
  later : {s t : System} → Reach n s → Step s t → Reach n t
