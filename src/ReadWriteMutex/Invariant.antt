-- ===== src/ReadWriteMutex/Invariant.antt =====
-- What holds in every reachable state of the mutex and its uses.
use fbutils.Prelude.{
  ℕ, ◌+◌, ◌<◌, ◌^◌, ◌≡◌, refl, sym, inl, Bool, true, false, List, ◌⊎◌, arith, weigh,
  weigh-replicate, length, length-replicate,
}
use fbutils.ReadWriteMutex
use fbutils.ReadWriteMutex.{Monitor, Notice, nobody, one_writer, all_readers}
use fbutils.ReadWriteMutex.System.{
  Pc, idle, read_blocked, write_blocked, is_reading, is_writing, read_asleep, write_asleep,
  write_woken, Move, read_entry, read_wait, read_resume, read_again, try_read, try_read_fails,
  read_exit, write_entry, write_wait, write_resume, write_again, try_write, try_write_fails,
  write_exit, Delivered, to_nobody, none_asleep, to_writer, to_readers, System, Step,
  spurious_reader, spurious_writer, init, Reach, start, later,
}
use fbutils.ReadWriteMutex.Counts.{Moved, Moved-set, Roused-map}

abbrev pub to_ℕ : Bool → ℕ
to_ℕ true = 1
to_ℕ false = 0

-- The fields count the uses, a writer excludes readers, and nobody sleeps who could go on.
pub record Inv (m : Monitor) (cs : List Pc) : Type 0 where
  pub few : length cs < 2 ^ 32
  pub readers : m.read_locked ≡ weigh is_reading cs
  pub writers : to_ℕ m.write_locked ≡ weigh is_writing cs
  pub waiting : m.write_waiting ≡ weigh write_asleep cs + weigh write_woken cs
  pub exclusive : (m.write_locked ≡ false) ⊎ (m.read_locked ≡ 0)
  pub readers_wait :
      (weigh read_asleep cs ≡ 0)
      ⊎ (0 < to_ℕ m.write_locked + weigh write_asleep cs + weigh write_woken cs)
  pub writers_wait :
      (weigh write_asleep cs ≡ 0)
      ⊎ (0 < to_ℕ m.write_locked + weigh is_reading cs + weigh write_woken cs)

module _ {m : Monitor} {cs : List Pc} (inv : Inv m cs) where
  move-Inv :
      {p p' : Pc} {m' : Monitor} {n : Notice} {cs₁ cs₂ : List Pc}
      → Move m p p' m' n
      → Moved cs cs₁ p p'
      → Delivered n cs₁ cs₂
      → Inv m' cs₂
  unfolding ReadWriteMutex.lock_shared ReadWriteMutex.try_lock_shared ReadWriteMutex.unlock_shared
      ReadWriteMutex.lock_again ReadWriteMutex.lock ReadWriteMutex.try_lock ReadWriteMutex.unlock
  move-Inv (read_entry e) f to_nobody = ground arith
  move-Inv (read_wait e) f to_nobody = ground arith
  move-Inv (read_resume e) f to_nobody = ground arith
  move-Inv (read_again e) f to_nobody = ground arith
  move-Inv (try_read owns e) f to_nobody = ground arith
  move-Inv (try_read_fails owns e) f to_nobody = ground arith
  move-Inv (write_entry e) f to_nobody = ground arith
  move-Inv (write_wait e) f to_nobody = ground arith
  move-Inv (write_resume e) f to_nobody = ground arith
  move-Inv (write_again e) f to_nobody = ground arith
  move-Inv (try_write owns e) f to_nobody = ground arith
  move-Inv (try_write_fails owns e) f to_nobody = ground arith
  move-Inv (read_exit e) f to_nobody = ground arith
  move-Inv (read_exit e) f (none_asleep z) = ground arith
  move-Inv {cs₁} (read_exit e) f (to_writer j h) =
      let g = Moved-set cs₁ j (write_blocked true) h in ground arith
  move-Inv {cs₁} (read_exit e) f to_readers = let g = Roused-map cs₁ in ground arith
  move-Inv (write_exit e) f to_nobody = ground arith
  move-Inv (write_exit e) f (none_asleep z) = ground arith
  move-Inv {cs₁} (write_exit e) f (to_writer j h) =
      let g = Moved-set cs₁ j (write_blocked true) h in ground arith
  move-Inv {cs₁} (write_exit e) f to_readers = let g = Roused-map cs₁ in ground arith

-- Every step keeps the invariant: a move with its signal, and a wait that ends with no signal.
pub Step-Inv : {s t : System} → Step s t → Inv s.monitor s.uses → Inv t.monitor t.uses
Step-Inv {s} (Step.move i {p' = p'} h mv d) inv = move-Inv inv mv (Moved-set s.uses i p' h) d
Step-Inv {s} (spurious_reader i h) inv =
    let f = Moved-set s.uses i (read_blocked true) h in ground arith
Step-Inv {s} (spurious_writer i h) inv =
    let f = Moved-set s.uses i (write_blocked true) h in ground arith

init-Inv : (n : ℕ) → n < 2 ^ 32 → Inv (init n).monitor (init n).uses
init-Inv n h = record {
  few = omega (arith, length-replicate n idle);
  readers = sym (weigh-replicate is_reading n idle refl);
  writers = sym (weigh-replicate is_writing n idle refl);
  waiting =
      omega
        (arith, weigh-replicate write_asleep n idle refl, weigh-replicate write_woken n idle refl);
  exclusive = inl refl;
  readers_wait = inl (weigh-replicate read_asleep n idle refl);
  writers_wait = inl (weigh-replicate write_asleep n idle refl);
}

-- In every reachable state of fewer than 2 ^ 32 uses the counters of the mutex are the numbers of uses
-- that read, write and wait to write; a writer excludes readers; no reader sleeps unless a writer
-- holds the lock or waits; no writer sleeps unless the lock is held or another writer has been woken.
pub Reach-Inv : {n : ℕ} {s : System} → n < 2 ^ 32 → Reach n s → Inv s.monitor s.uses
Reach-Inv {n} h start = init-Inv n h
Reach-Inv h (later r st) = Step-Inv st (Reach-Inv h r)
