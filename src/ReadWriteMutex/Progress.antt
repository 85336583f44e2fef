-- ===== src/ReadWriteMutex/Progress.antt =====
-- No use of a `ReadWriteMutex` is left asleep where nobody is left to wake it.
use fbutils.Prelude.{
  ℕ, ◌+◌, ◌<◌, ◌^◌, ◌≡◌, ◌≢◌, ◌⊎◌, inl, inr, List, Bool, true, false, some, arith, weigh, le-weigh,
  weigh_pos, get_elem?, dec_lt, ap, ◌∙◌,
}
use fbutils.ReadWriteMutex
use fbutils.ReadWriteMutex.{Exit, Monitor, returns, nobody, increment, decrement}
use fbutils.ReadWriteMutex.System.{
  Pc, reading, writing, read_asleep, read_woken, write_asleep, write_woken, is_reading, is_writing,
  System, Reach, read_blocked, write_blocked,
}
use fbutils.ReadWriteMutex.Invariant.{Inv, Reach-Inv}

-- A use that has been woken, and that gets the lock as soon as it runs.
pub data CanResume (s : System) : Type 0 where
  reader :
      (i : ℕ) (m : Monitor)
      → get_elem? s.uses i ≡ some (read_blocked true)
      → ReadWriteMutex.lock_shared s.monitor ≡ returns true m nobody
      → CanResume s
  writer :
      (i : ℕ) (m : Monitor)
      → get_elem? s.uses i ≡ some (write_blocked true)
      → ReadWriteMutex.lock_again s.monitor ≡ returns true m nobody
      → CanResume s

abbrev pub IsBlocked : Pc → Type 0
IsBlocked p = (w : Bool) × ((p ≡ read_blocked w) ⊎ (p ≡ write_blocked w))

woken_writer : (p : Pc) → 0 < write_woken p → p ≡ write_blocked true
woken_writer p h = ground arith

woken_reader : (p : Pc) → 0 < read_woken p → p ≡ read_blocked true
woken_reader p h = ground arith

module _ {s : System} (inv : Inv s.monitor s.uses) where
  resume_writer :
      weigh is_reading s.uses ≡ 0
      → weigh is_writing s.uses ≡ 0
      → 0 < weigh write_woken s.uses
      → CanResume s
  unfolding ReadWriteMutex.lock_again
  resume_writer nr nw h =
      let (i, p, e, q) = weigh_pos write_woken s.uses h in
      writer i
        (record s.monitor {
          write_locked = true;
          write_waiting = decrement s.monitor.write_waiting;
        })
        (rw (e, woken_writer p q)) (ground (arith, inv.readers, inv.writers))

  resume_reader :
      weigh write_asleep s.uses + weigh write_woken s.uses ≡ 0
      → weigh is_writing s.uses ≡ 0
      → 0 < weigh read_woken s.uses
      → CanResume s
  unfolding ReadWriteMutex.lock_shared
  resume_reader nq nw h =
      let (i, p, e, q) = weigh_pos read_woken s.uses h in
      reader i (record s.monitor { read_locked = increment s.monitor.read_locked })
        (rw (e, woken_reader p q)) (ground (arith, inv.waiting, inv.writers))

none_there :
    (w : Pc → ℕ) (q : Pc) (cs : List Pc)
    → ((p : Pc) → 0 < w p → p ≡ q)
    → ((j : ℕ) → get_elem? cs j ≢ some q)
    → weigh w cs ≡ 0
none_there w q cs only h = elim (dec_lt 0 (weigh w cs)) [
  | yes p ↦ let (j, u, e, k) = weigh_pos w cs p in absurd (h j (e ∙ ap some (only u k)))
  | no n ↦ omega arith
]

blocked_weight :
    (p : Pc) → IsBlocked p → 0 < read_asleep p + read_woken p + write_asleep p + write_woken p
blocked_weight p (true, inl e) = rw e (omega arith)
blocked_weight p (false, inl e) = rw e (omega arith)
blocked_weight p (true, inr e) = rw e (omega arith)
blocked_weight p (false, inr e) = rw e (omega arith)

-- No deadlock and no lost signal: with fewer than 2 ^ 32 uses, in every reachable state in which some
-- use is blocked in a wait and no use holds the lock, some use has been woken whose test passes.
pub no_deadlock :
    {n : ℕ} {s : System}
    → n < 2 ^ 32
    → Reach n s
    → (i : ℕ) {p : Pc} → get_elem? s.uses i ≡ some p
    → IsBlocked p
    → ((j : ℕ) → get_elem? s.uses j ≢ some reading)
    → ((j : ℕ) → get_elem? s.uses j ≢ some writing)
    → CanResume s
no_deadlock {s} few r i {p} h blocked nr nw = elim (dec_lt 0 (weigh write_woken s.uses)) [
  | yes w ↦ resume_writer {s = s} inv readers writers w
  | no w ↦
      resume_reader {s = s} inv (ground (arith, inv.writers_wait, inv.writers, readers, writers))
        writers
        (ground (
          arith,
          inv.writers_wait,
          inv.readers_wait,
          inv.writers,
          readers,
          writers,
          blocked_weight p blocked,
          le-weigh read_asleep s.uses i h,
          le-weigh read_woken s.uses i h,
          le-weigh write_asleep s.uses i h,
          le-weigh write_woken s.uses i h,
        ))
]
  where
    inv : Inv s.monitor s.uses
    inv = Reach-Inv few r

    readers : weigh is_reading s.uses ≡ 0
    readers = none_there is_reading reading s.uses (λ p k. ground arith) nr

    writers : weigh is_writing s.uses ≡ 0
    writers = none_there is_writing writing s.uses (λ p k. ground arith) nw
