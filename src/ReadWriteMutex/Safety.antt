-- ===== src/ReadWriteMutex/Safety.antt =====
-- What the users of a `ReadWriteMutex` rely on in every reachable state.
use fbutils.Prelude.{
  ℕ, ◌+◌, ◌≤◌, ◌<◌, ◌^◌, ◌≡◌, ◌≢◌, ◌⊎◌, inl, inr, List, true, some, arith, weigh, le-weigh,
  add-le-weigh, get_elem?, ℕ_discrete,
}
use fbutils.ReadWriteMutex
use fbutils.ReadWriteMutex.{Exit, asserts}
use fbutils.ReadWriteMutex.System.{
  Pc, reading, writing, write_asleep, write_woken, is_reading, is_writing, System, Step,
  spurious_reader, spurious_writer, Reach, Move, read_entry, read_wait, read_resume, read_again,
  try_read, try_read_fails, read_exit, write_entry, write_wait, write_resume, write_again,
  try_write, try_write_fails, write_exit, Delivered, to_nobody, none_asleep, to_writer, to_readers,
  read_blocked, write_blocked,
}
use fbutils.ReadWriteMutex.Counts.{Moved, Moved-set, Roused-map}
use fbutils.ReadWriteMutex.Invariant.{Inv, Reach-Inv}

holds : Pc → ℕ
holds p = is_reading p + is_writing p

-- Mutual exclusion: with fewer than 2 ^ 32 uses, in every reachable state, a use that holds the write
-- lock is the only one that holds any lock.
pub mutual_exclusion :
    {n : ℕ} {s : System}
    → n < 2 ^ 32
    → Reach n s
    → (i j : ℕ) → get_elem? s.uses i ≡ some writing
    → (get_elem? s.uses j ≡ some writing) ⊎ (get_elem? s.uses j ≡ some reading)
    → i ≡ j
mutual_exclusion {s} few r i j hi hj = elim (ℕ_discrete i j) [
  | yes e ↦ e
  | no d ↦ absurd (conflict d hj)
]
  where
    inv : Inv s.monitor s.uses
    inv = Reach-Inv few r

    conflict : i ≢ j → (get_elem? s.uses j ≡ some writing) ⊎ (get_elem? s.uses j ≡ some reading) → ⊥
    conflict d (inl w) = ground (arith, inv.writers, add-le-weigh is_writing s.uses i j d hi w)
    conflict d (inr w) = ground (
      arith,
      inv.writers,
      inv.readers,
      inv.exclusive,
      le-weigh is_writing s.uses i hi,
      le-weigh is_reading s.uses j w,
    )

-- No assertion fails: with fewer than 2 ^ 32 uses, in every reachable state, `unlock_shared` by a use
-- that holds a read lock and `unlock` by the one that holds the write lock pass their assertions.
pub asserts_pass :
    {n : ℕ} {s : System}
    → n < 2 ^ 32
    → Reach n s
    → (i : ℕ)
    → (get_elem? s.uses i ≡ some reading → ReadWriteMutex.unlock_shared s.monitor ≢ asserts)
      × (get_elem? s.uses i ≡ some writing → ReadWriteMutex.unlock s.monitor ≢ asserts)
unfolding ReadWriteMutex.unlock_shared ReadWriteMutex.unlock
asserts_pass {s} few r i = (
  λ h e. ground (arith, inv.readers, le-weigh is_reading s.uses i h),
  λ h e. ground (arith, inv.writers, le-weigh is_writing s.uses i h),
)
  where
    inv : Inv s.monitor s.uses
    inv = Reach-Inv few r

module _ {s : System} (inv : Inv s.monitor s.uses) where
  move_readers :
      {p p' : Pc} {m' : ReadWriteMutex.Monitor} {n : ReadWriteMutex.Notice} {cs₁ cs₂ : List Pc}
      → Move s.monitor p p' m' n
      → Moved s.uses cs₁ p p'
      → Delivered n cs₁ cs₂
      → 0 < weigh write_asleep s.uses + weigh write_woken s.uses
      → weigh is_reading cs₂ ≤ weigh is_reading s.uses
  unfolding ReadWriteMutex.lock_shared ReadWriteMutex.try_lock_shared
  move_readers (read_entry e) f to_nobody w = ground (arith, inv.waiting)
  move_readers (read_wait e) f to_nobody w = ground arith
  move_readers (read_resume e) f to_nobody w = ground (arith, inv.waiting)
  move_readers (read_again e) f to_nobody w = ground arith
  move_readers (try_read owns e) f to_nobody w = ground (arith, inv.waiting)
  move_readers (try_read_fails owns e) f to_nobody w = ground arith
  move_readers (write_entry e) f to_nobody w = ground arith
  move_readers (write_wait e) f to_nobody w = ground arith
  move_readers (write_resume e) f to_nobody w = ground arith
  move_readers (write_again e) f to_nobody w = ground arith
  move_readers (try_write owns e) f to_nobody w = ground arith
  move_readers (try_write_fails owns e) f to_nobody w = ground arith
  move_readers (read_exit e) f to_nobody w = ground arith
  move_readers (read_exit e) f (none_asleep z) w = ground arith
  move_readers {cs₁} (read_exit e) f (to_writer j h) w =
      let g = Moved-set cs₁ j (write_blocked true) h in ground arith
  move_readers {cs₁} (read_exit e) f to_readers w = let g = Roused-map cs₁ in ground arith
  move_readers (write_exit e) f to_nobody w = ground arith
  move_readers (write_exit e) f (none_asleep z) w = ground arith
  move_readers {cs₁} (write_exit e) f (to_writer j h) w =
      let g = Moved-set cs₁ j (write_blocked true) h in ground arith
  move_readers {cs₁} (write_exit e) f to_readers w = let g = Roused-map cs₁ in ground arith

-- Write priority: with fewer than 2 ^ 32 uses, while some use waits for the write lock, no step from a
-- reachable state lets another use in to read: the number of readers does not grow.
pub write_priority :
    {n : ℕ} {s t : System}
    → n < 2 ^ 32
    → Reach n s
    → Step s t
    → 0 < weigh write_asleep s.uses + weigh write_woken s.uses
    → weigh is_reading t.uses ≤ weigh is_reading s.uses
write_priority {s} few r (Step.move i {p' = p'} h mv d) w =
    move_readers {s = s} (Reach-Inv few r) mv (Moved-set s.uses i p' h) d w
write_priority {s} few r (spurious_reader i h) w =
    let f = Moved-set s.uses i (read_blocked true) h in omega arith
write_priority {s} few r (spurious_writer i h) w =
    let f = Moved-set s.uses i (write_blocked true) h in omega arith
