-- ===== src/ReadWriteMutex/Spec.antt =====
-- What a readers-writer lock promises, with no waiting and no signals, and that the mutex keeps it.
use fbutils.Prelude.{
  ℕ, zero, suc, ◌<◌, ◌^◌, ◌≡◌, inl, inr, List, refl, ap, true, false, arith, ltb, weigh, Bool-cases,
  if◌then◌else◌,
}
use fbutils.ReadWriteMutex
use fbutils.ReadWriteMutex.{Monitor, Notice}
use fbutils.ReadWriteMutex.System.{
  Pc, System, Step, spurious_reader, spurious_writer, Reach, Move, read_entry, read_wait,
  read_resume, read_again, try_read, try_read_fails, read_exit, write_entry, write_wait,
  write_resume, write_again, try_write, try_write_fails, write_exit, is_reading, is_writing, later,
}
use fbutils.ReadWriteMutex.Counts.{Moved, Moved-set}
use fbutils.ReadWriteMutex.Invariant.{Inv, Reach-Inv}

-- Free, held by so many readers (one more than the number), or held by a writer.
pub data Lock : Type 0 where
  free : Lock
  shared : ℕ → Lock
  exclusive : Lock

abbrev readers_of : ℕ → Lock
readers_of zero = free
readers_of (suc n) = shared n

-- What a caller can tell of a step: whether a lock is taken or let go of, and which.
pub data Event : Type 0 where
  silent : Event
  shares : Event
  unshares : Event
  excludes : Event
  frees : Event

-- What the SharedMutex concept allows for each of them.
pub data Allowed : Event → Lock → Lock → Type 0 where
  nothing : {a : Lock} → Allowed silent a a
  one_more : (n : ℕ) → Allowed shares (readers_of n) (readers_of (suc n))
  one_fewer : (n : ℕ) → Allowed unshares (readers_of (suc n)) (readers_of n)
  enter : Allowed excludes free exclusive
  leave : Allowed frees exclusive free

-- What the fields of the mutex say of the lock.
unfoldable pub view : Monitor → Lock
view m = if m.write_locked then exclusive else readers_of m.read_locked

-- What the uses of the mutex hold.
unfoldable pub held : List Pc → Lock
held cs = if ltb 0 (weigh is_writing cs) then exclusive else readers_of (weigh is_reading cs)

abbrev pub moved : {m m' : Monitor} {p p' : Pc} {n : Notice} → Move m p p' m' n → Event
moved (read_entry e) = shares
moved (read_wait e) = silent
moved (read_resume e) = shares
moved (read_again e) = silent
moved (try_read owns e) = shares
moved (try_read_fails owns e) = silent
moved (read_exit e) = unshares
moved (write_entry e) = excludes
moved (write_wait e) = silent
moved (write_resume e) = excludes
moved (write_again e) = silent
moved (try_write owns e) = excludes
moved (try_write_fails owns e) = silent
moved (write_exit e) = frees

abbrev pub event : {s t : System} → Step s t → Event
event (Step.move i h mv d) = moved mv
event (spurious_reader i h) = silent
event (spurious_writer i h) = silent

view-held : {m : Monitor} {cs : List Pc} → Inv m cs → view m ≡ held cs
unfolding view held
view-held {m} {cs} inv = elim (Bool-cases m.write_locked) [
  | inl w ↦
      let some_writer : ltb 0 (weigh is_writing cs) ≡ true = ground (arith, inv.writers, w) in
      rw (w, some_writer) refl
  | inr w ↦
      let no_writer : ltb 0 (weigh is_writing cs) ≡ false = ground (arith, inv.writers, w) in
      rw (w, no_writer) (ap readers_of inv.readers)
]

-- Each transition from what the fields say before and after.
module _ (m m' : Monitor) where
  view_same :
      m'.read_locked ≡ m.read_locked
      → m'.write_locked ≡ m.write_locked
      → Allowed silent (view m) (view m')
  unfolding view
  view_same r w = rw (r, w) nothing

  view_read :
      m.write_locked ≡ false
      → m'.write_locked ≡ false
      → m'.read_locked ≡ suc m.read_locked
      → Allowed shares (view m) (view m')
  unfolding view
  view_read a b r = rw (a, b, r) (one_more m.read_locked)

  view_unread :
      m.write_locked ≡ false
      → m'.write_locked ≡ false
      → m.read_locked ≡ suc m'.read_locked
      → Allowed unshares (view m) (view m')
  unfolding view
  view_unread a b r = rw (a, b, r) (one_fewer m'.read_locked)

  view_write :
      m.write_locked ≡ false
      → m'.write_locked ≡ true
      → m.read_locked ≡ 0
      → Allowed excludes (view m) (view m')
  unfolding view
  view_write a b r = rw (a, b, r) enter

  view_unwrite :
      m.write_locked ≡ true
      → m'.write_locked ≡ false
      → m'.read_locked ≡ 0
      → Allowed frees (view m) (view m')
  unfolding view
  view_unwrite a b r = rw (a, b, r) leave

module _ {m : Monitor} {cs : List Pc} (inv : Inv m cs) where
  move-Allowed :
      {p p' : Pc} {m' : Monitor} {n : Notice} {cs₁ : List Pc}
      → (mv : Move m p p' m' n) → Moved cs cs₁ p p'
      → Allowed (moved mv) (view m) (view m')
  unfolding ReadWriteMutex.lock_shared ReadWriteMutex.try_lock_shared ReadWriteMutex.unlock_shared
      ReadWriteMutex.lock_again ReadWriteMutex.lock ReadWriteMutex.try_lock ReadWriteMutex.unlock
  move-Allowed (read_entry e) f = view_read _ _ (ground arith) (ground arith) (ground arith)
  move-Allowed (read_wait e) f = view_same _ _ (ground arith) (ground arith)
  move-Allowed (read_resume e) f = view_read _ _ (ground arith) (ground arith) (ground arith)
  move-Allowed (read_again e) f = view_same _ _ (ground arith) (ground arith)
  move-Allowed (try_read o e) f = view_read _ _ (ground arith) (ground arith) (ground arith)
  move-Allowed (try_read_fails o e) f = view_same _ _ (ground arith) (ground arith)
  move-Allowed (read_exit e) f = view_unread _ _ (ground arith) (ground arith) (ground arith)
  move-Allowed (write_entry e) f = view_write _ _ (ground arith) (ground arith) (ground arith)
  move-Allowed (write_wait e) f = view_same _ _ (ground arith) (ground arith)
  move-Allowed (write_resume e) f = view_write _ _ (ground arith) (ground arith) (ground arith)
  move-Allowed (write_again e) f = view_same _ _ (ground arith) (ground arith)
  move-Allowed (try_write o e) f = view_write _ _ (ground arith) (ground arith) (ground arith)
  move-Allowed (try_write_fails o e) f = view_same _ _ (ground arith) (ground arith)
  move-Allowed (write_exit e) f = view_unwrite _ _ (ground arith) (ground arith) (ground arith)

-- Refinement: with fewer than 2 ^ 32 uses, in every reachable state the fields say of the lock what the uses
-- hold, and each step changes it as a readers-writer lock allows for what the step is: where a use gets a read
-- lock, there is no writer and then one reader more; where it lets go of one, one reader fewer; where it gets
-- the write lock, the lock was free, and is held by a writer; where it lets go of that, the lock is free; and
-- any other step leaves the lock as it is.
pub event-Allowed :
    {n : ℕ} {s t : System}
    → n < 2 ^ 32
    → Reach n s
    → (step : Step s t)
    → Allowed (event step) (view s.monitor) (view t.monitor)
      × (view s.monitor ≡ held s.uses)
      × (view t.monitor ≡ held t.uses)
event-Allowed few r step = (
  one_step (Reach-Inv few r) step,
  view-held (Reach-Inv few r),
  view-held (Reach-Inv few (later r step)),
)
  where
    one_step :
        {s t : System}
        → Inv s.monitor s.uses
        → (step : Step s t) → Allowed (event step) (view s.monitor) (view t.monitor)
    one_step {s} inv (Step.move i {p' = p'} h mv d) = move-Allowed inv mv (Moved-set s.uses i p' h)
    one_step inv (spurious_reader i h) = nothing
    one_step inv (spurious_writer i h) = nothing
