-- ===== src/ReadWriteMutex/Tests.antt =====
-- Runs of the mutex, and the theorems at concrete states.
use fbutils.Prelude.{
  ℕ, zero, suc, ap, ◌+◌, ◌≤◌, ◌≡◌, ◌≢◌, inl, refl, true, false, some, [], ◌∷◌, arith, weigh,
  get_elem?,
}
use mathlib.Core.Option.{some-injective}
use fbutils.ReadWriteMutex
use fbutils.ReadWriteMutex.{
  Monitor, Notice, Exit, returns, waits, asserts, nobody, one_writer, all_readers, unlocked,
}
use fbutils.ReadWriteMutex.System.{
  Pc, idle, reading, writing, write_blocked, is_reading, System, Step, Reach, start, later, init,
  read_entry, read_wait, read_exit, write_entry, write_wait, to_nobody, to_writer, read_blocked,
  Move, read_asleep, write_asleep, read_resume, read_again, try_read, try_read_fails, write_resume,
  write_again, try_write, try_write_fails, write_exit,
}
use fbutils.ReadWriteMutex.Invariant.{Inv, Reach-Inv}
use fbutils.ReadWriteMutex.Safety.{mutual_exclusion, asserts_pass, write_priority}
use fbutils.ReadWriteMutex.Service.{Served, go, Runs, here, next, steps, demand, all_served}
use fbutils.ReadWriteMutex.Spec.{Allowed, unshares, view, held, event-Allowed}

-- Three uses: the first reads, the second waits to write.
abbrev reader_in : System
reader_in = record {
  monitor = record { read_locked = 1; write_waiting = 0; write_locked = false };
  uses = reading ∷ idle ∷ idle ∷ [];
}

abbrev writer_waits : System
writer_waits = record {
  monitor = record { read_locked = 1; write_waiting = 1; write_locked = false };
  uses = reading ∷ write_blocked false ∷ idle ∷ [];
}

-- The reader leaves and wakes the writer.
abbrev writer_woken : System
writer_woken = record {
  monitor = record { read_locked = 0; write_waiting = 1; write_locked = false };
  uses = idle ∷ write_blocked true ∷ idle ∷ [];
}

enters : Step (init 3) reader_in
unfolding ReadWriteMutex.lock_shared
enters = Step.move 0 refl (read_entry refl) to_nobody

waits_to_write : Step reader_in writer_waits
unfolding ReadWriteMutex.lock
waits_to_write = Step.move 1 refl (write_wait refl) to_nobody

leaves : Step writer_waits writer_woken
unfolding ReadWriteMutex.unlock_shared
leaves = Step.move 0 refl (read_exit refl) (to_writer 1 refl)

first_reader_reached : Reach 3 reader_in
first_reader_reached = later start enters

writer_waits_reached : Reach 3 writer_waits
writer_waits_reached = later first_reader_reached waits_to_write

writer_woken_reached : Reach 3 writer_woken
writer_woken_reached = later writer_waits_reached leaves

-- A mutex that one use holds for writing.
abbrev writer_in : System
writer_in = record {
  monitor = record { read_locked = 0; write_waiting = 0; write_locked = true };
  uses = writing ∷ idle ∷ idle ∷ [];
}

writer_in_reached : Reach 3 writer_in
unfolding ReadWriteMutex.lock
writer_in_reached = later start (Step.move 0 refl (write_entry refl) to_nobody)

-- While a writer waits, `try_lock_shared` and `lock_shared` let nobody in.
turned_away :
    (ReadWriteMutex.try_lock_shared true writer_waits.monitor
      ≡ returns false writer_waits.monitor nobody)
    × (ReadWriteMutex.lock_shared writer_waits.monitor ≡ waits writer_waits.monitor)
    × (ReadWriteMutex.try_lock true reader_in.monitor ≡ returns false reader_in.monitor nobody)
unfolding ReadWriteMutex.try_lock_shared ReadWriteMutex.lock_shared ReadWriteMutex.try_lock
turned_away = (refl, refl, refl)

Reach-Inv_example : Inv writer_woken.monitor writer_woken.uses
Reach-Inv_example = Reach-Inv {n = 3} (omega arith) writer_woken_reached

mutual_exclusion_example : ◌≡◌ {A = ℕ} 0 0
mutual_exclusion_example =
    mutual_exclusion {n = 3} (omega arith) writer_in_reached 0 0 refl (inl refl)

asserts_pass_example :
    (some reading ≡ some reading → ReadWriteMutex.unlock_shared writer_waits.monitor ≢ asserts)
    × (some reading ≡ some writing → ReadWriteMutex.unlock writer_waits.monitor ≢ asserts)
asserts_pass_example = asserts_pass {n = 3} (omega arith) writer_waits_reached 0

write_priority_example : weigh is_reading writer_woken.uses ≤ weigh is_reading writer_waits.uses
write_priority_example =
    write_priority {n = 3} (omega arith) writer_waits_reached leaves (omega arith)

event-Allowed_example :
    Allowed unshares (view writer_waits.monitor) (view writer_woken.monitor)
    × (view writer_waits.monitor ≡ held writer_waits.uses)
    × (view writer_woken.monitor ≡ held writer_woken.uses)
unfolding ReadWriteMutex.unlock_shared
event-Allowed_example =
    event-Allowed {n = 3} (omega arith) writer_waits_reached
      (Step.move 0 refl (read_exit refl) (to_writer 1 refl))

-- Each use is of a thread of its own.
abbrev own : ℕ → ℕ
own i = i

reader_leaves : Runs own writer_waits writer_woken
unfolding ReadWriteMutex.unlock_shared
reader_leaves =
    next here (go 0 refl (λ e. cc) (λ j q h e n. absurd (n e)) (read_exit refl) (to_writer 1 refl))

all_served_example :
    (steps reader_leaves ≤ demand 3 writer_waits)
    × (((u : System) → ¬ Served own writer_woken u)
        → (i : ℕ) (p : Pc) → get_elem? writer_woken.uses i ≡ some p
        → p ≡ idle)
all_served_example =
    all_served {n = 3} (omega arith) writer_waits_reached (λ i p h a j q g e n. absurd (n e))
      reader_leaves

-- The first and the third use are of one thread, the second waits to write: the thread that reads asks for
-- a second read lock.
abbrev nested : System
nested = record {
  monitor = writer_waits.monitor;
  uses = reading ∷ write_blocked false ∷ read_blocked false ∷ [];
}

nested_reached : Reach 3 nested
unfolding ReadWriteMutex.lock_shared
nested_reached = later writer_waits_reached (Step.move 2 refl (read_wait refl) to_nobody)

abbrev of_two : ℕ → ℕ
of_two (suc zero) = 1
of_two _ = 0

awake :
    {m m' : Monitor} {p p' : Pc} {n : Notice}
    → Move m p p' m' n
    → read_asleep p + write_asleep p ≡ 0
awake (read_entry e) = refl
awake (read_wait e) = refl
awake (read_resume e) = refl
awake (read_again e) = refl
awake (try_read o e) = refl
awake (try_read_fails o e) = refl
awake (read_exit e) = refl
awake (write_entry e) = refl
awake (write_wait e) = refl
awake (write_resume e) = refl
awake (write_again e) = refl
awake (try_write o e) = refl
awake (try_write_fails o e) = refl
awake (write_exit e) = refl

-- Nobody goes on: the reader waits for the writer, and the writer for the reader.
nested_deadlock : (t : System) → ¬ Served of_two nested t
nested_deadlock t (go zero h called free mv d) =
    absurd (ground (arith, free 2 (read_blocked false) refl refl (λ e. omega arith)))
nested_deadlock t (go (suc zero) {p} h called free mv d) =
    absurd
      (ground (arith, awake mv, ap (λ q. read_asleep q + write_asleep q) (some-injective _ _ h)))
nested_deadlock t (go (suc (suc zero)) {p} h called free mv d) =
    absurd
      (ground (arith, awake mv, ap (λ q. read_asleep q + write_asleep q) (some-injective _ _ h)))
nested_deadlock t (go (suc (suc (suc i))) h called free mv d) = absurd cc
