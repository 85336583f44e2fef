-- ===== src/ReadWriteMutex/Scoped.antt =====
-- The classes `ReadLock` and `WriteLock`: a lock held from construction to the end of the scope.
use fbutils.Prelude.{◌+◌, ◌<◌, ◌^◌, ◌≡◌, true, false, arith, ◌==◌, if◌then◌else◌}
use fbutils.ReadWriteMutex
use fbutils.ReadWriteMutex.{
  Monitor, Notice, nobody, one_writer, all_readers, Exit, returns, waits, asserts,
}

-- `~ReadLock` and `~WriteLock` run only where the constructor has returned.
abbrev at_end_of_scope : Exit → (Monitor → Exit) → Exit
at_end_of_scope (returns ok m n) destructor = destructor m
at_end_of_scope (waits m) destructor = waits m
at_end_of_scope asserts destructor = asserts

-- `{ ReadLock l(m); }`
unfoldable pub read_scope : Monitor → Exit
read_scope m = at_end_of_scope (ReadWriteMutex.lock_shared m) ReadWriteMutex.unlock_shared

-- `{ WriteLock l(m); }`
unfoldable pub write_scope : Monitor → Exit
write_scope m = at_end_of_scope (ReadWriteMutex.lock m) ReadWriteMutex.unlock

-- `{ ReadLock l1(m); ReadLock l2(m); }`: the second is destroyed first.
unfoldable pub two_read_scopes : Monitor → Exit
two_read_scopes m = at_end_of_scope (ReadWriteMutex.lock_shared m) (λ m'.
    at_end_of_scope (at_end_of_scope (ReadWriteMutex.lock_shared m') ReadWriteMutex.unlock_shared)
      ReadWriteMutex.unlock_shared)

-- Where no writer holds the lock or waits, a scope with a `ReadLock` gives the mutex back as it was,
-- and it signals a writer exactly where no other reader is left. (Fewer than 2 ^ 32 - 1 readers.)
read_scope_restores :
    (m : Monitor)
    → m.write_locked ≡ false
    → m.write_waiting ≡ 0
    → m.read_locked + 1 < 2 ^ 32
    → read_scope m ≡ returns true m (if m.read_locked == 0 then one_writer else nobody)
unfolding read_scope ReadWriteMutex.lock_shared ReadWriteMutex.unlock_shared
read_scope_restores m a b c = ground arith

-- Where the lock is free, a scope with a `WriteLock` gives the mutex back as it was. It wakes the
-- readers where no writer waits, and a writer otherwise. (Fewer than 2 ^ 32 - 1 waiting writers.)
write_scope_restores :
    (m : Monitor)
    → m.write_locked ≡ false
    → m.read_locked ≡ 0
    → m.write_waiting + 1 < 2 ^ 32
    → write_scope m ≡ returns true m (if m.write_waiting == 0 then all_readers else one_writer)
unfolding write_scope ReadWriteMutex.lock ReadWriteMutex.unlock
write_scope_restores m a b c = ground arith

-- Two read locks of one scope do not block one another where no writer holds the lock or waits, and
-- give the mutex back as it was. (Fewer than 2 ^ 32 - 2 readers.)
two_read_scopes_restore :
    (m : Monitor)
    → m.write_locked ≡ false
    → m.write_waiting ≡ 0
    → m.read_locked + 2 < 2 ^ 32
    → two_read_scopes m ≡ returns true m (if m.read_locked == 0 then one_writer else nobody)
unfolding two_read_scopes ReadWriteMutex.lock_shared ReadWriteMutex.unlock_shared
two_read_scopes_restore m a b c = ground arith
