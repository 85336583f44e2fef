-- ===== src/ThreadPool/Shutdown.antt =====
-- The destructor writes `mTerminate` without the mutex, and so can slip in between the test of a
-- worker's predicate and its sleep.
use fbutils.Prelude.{
  ℕ, ◌≡◌, ◌≢◌, refl, sym, ◌∙◌, ap, true, false, Option, some, List, arith, weigh, le-weigh,
  get_elem?, get_elem?-map, get_elem?-set_self, get_elem?-set_ne, lt-length_of_get_elem?, set,
  length, map,
}
use mathlib.Core.Option.{some-injective}
use fbutils.ThreadPool.{Pool}
use fbutils.ThreadPool.System.{
  Pc, head, at_lock, tested, asleep, passed, running, finishing, exited, Owner, outside, joining,
  System, is_exited, is_asleep, wake, owner_woken, heard, Move, leave, enter, pass, test, sleep,
  take, end_job, finish, Inner, work, notify_all, joined, inner, destroy, Reach, later,
}
use fbutils.ThreadPool.Counts.{weigh_exited-le}

-- What may happen with no call from outside and no wake-up without a signal.
pub data Runs (s : System) : System → Type 0 where
  here : Runs s s
  next : {t u : System} → Runs s t → Inner t u → Runs s u

pub record IsStuck (i : ℕ) (s : System) : Type 0 where
  pub at_join : s.owner ≡ joining
  pub sleeper : get_elem? s.workers i ≡ some asleep

pub heard-joining : (pc : Pc) {o : Owner} → o ≡ joining → heard pc o ≡ joining
heard-joining finishing e = ap owner_woken e
heard-joining head e = e
heard-joining at_lock e = e
heard-joining tested e = e
heard-joining asleep e = e
heard-joining passed e = e
heard-joining (running job) e = e
heard-joining exited e = e

-- A worker that sleeps makes no step of its own.
asleep_stays : {p p' : Pool} {pc pc' : Pc} {b e : Option ℕ} → Move p pc p' pc' b e → pc ≢ asleep
asleep_stays (leave e) h = ground arith
asleep_stays (enter e) h = ground arith
asleep_stays (pass e g) h = ground arith
asleep_stays (test e g) h = ground arith
asleep_stays sleep h = ground arith
asleep_stays (take e) h = ground arith
asleep_stays end_job h = ground arith
asleep_stays (finish e) h = ground arith

exited_some : (ws : List Pc) (i : ℕ) → get_elem? ws i ≡ some asleep → weigh is_exited ws ≢ length ws
exited_some ws i h e = ground (arith, weigh_exited-le ws, le-weigh is_asleep ws i h)

Inner-IsStuck : (i : ℕ) {s t : System} → Inner s t → IsStuck i s → IsStuck i t
Inner-IsStuck i {s} (work k {pc} {pc'} h mv) stuck = record {
  at_join = heard-joining pc stuck.at_join;
  sleeper = get_elem?-set_ne s.workers pc' other ∙ stuck.sleeper;
}
  where
    other : k ≢ i
    other e =
        asleep_stays mv (some-injective _ _ (sym h ∙ ap (get_elem? s.workers) e ∙ stuck.sleeper))
Inner-IsStuck i (notify_all e) stuck = absurd (ground (arith, stuck.at_join))
Inner-IsStuck i {s} (joined e h) stuck = absurd (exited_some s.workers i stuck.sleeper h)

Runs-IsStuck : (i : ℕ) {s t : System} → Runs s t → IsStuck i s → IsStuck i t
Runs-IsStuck i here stuck = stuck
Runs-IsStuck i (next r st) stuck = Inner-IsStuck i st (Runs-IsStuck i r stuck)

-- The destructor has run up to its `join`, and worker `i` has gone to sleep.
abbrev pub overtaken : System → ℕ → System
overtaken s i = record s {
  pool = record s.pool { terminate = true; locked = false };
  workers = set (map wake s.workers) i asleep;
  owner = joining;
}

-- Lost wake-up in the destructor: from every reachable state in which the owner is outside the pool and
-- a worker has found its predicate false and is about to sleep, a state can be reached in which the
-- destructor has set `mTerminate` and sent its signal, waits in `join`, and that worker sleeps; and
-- whatever the workers then do, with no further job and no spurious wake-up, it stays so: the
-- destructor does not return.
pub lost_wakeup :
    {n : ℕ} {s : System}
    → Reach n s
    → s.owner ≡ outside
    → (i : ℕ) → get_elem? s.workers i ≡ some tested
    → (t : System) × Reach n t × IsStuck i t × ((u : System) → Runs t u → IsStuck i u)
lost_wakeup {s} r e i h = (
  overtaken s i,
  later (later (later r (destroy e)) (inner (notify_all refl))) (inner (work i still sleep)),
  stuck,
  λ u run. Runs-IsStuck i run stuck,
)
  where
    still : get_elem? (map wake s.workers) i ≡ some tested
    still = get_elem?-map wake s.workers i h

    stuck : IsStuck i (overtaken s i)
    stuck = record {
      at_join = refl;
      sleeper = get_elem?-set_self (map wake s.workers) i asleep (lt-length_of_get_elem? _ i still);
    }
