-- ===== src/ThreadPool/Jobs.antt =====
-- What becomes of the jobs that are added to a pool.
use fbutils.Prelude.{
  ℕ, ◌+◌, ◌≡◌, refl, sym, Option, none, some, List, [], ◌∷◌, ◌++◌, arith, weigh, weigh-replicate,
  weigh-set,
}
use mathlib.Core.List.{append_assoc, append-nil}
use fbutils.ThreadPool
use fbutils.ThreadPool.{Pool, is_empty}
use fbutils.ThreadPool.System.{
  Pc, head, at_lock, running, System, log, Move, leave, enter, pass, test, sleep, take, end_job,
  finish, NotifyOne, nobody, somebody, Inner, work, notify_all, joined, Step, inner, spurious,
  spurious_owner, add, call_wait, wait_blocks, wait_returns, destroy, Reach, start, later,
}
use fbutils.ThreadPool.Counts.{runs, count, count_in, count-log, Roused-map}

-- Taking a job moves it from the front of the queue to the worker.
take_queue :
    (p : Pool) (queue : List ℕ) {job : Option ℕ} {p' : Pool}
    → p.queue ≡ queue
    → ThreadPool.take_job p ≡ some (job, p')
    → log job [] ++ p'.queue ≡ p.queue
unfolding ThreadPool.take_job
take_queue p [] q e = ground arith
take_queue p (k ∷ ks) q e = ground arith

pub move_queue :
    {p p' : Pool} {pc pc' : Pc} {b e : Option ℕ}
    → Move p pc p' pc' b e
    → log b [] ++ p'.queue ≡ p.queue
unfolding ThreadPool.finish_job
move_queue (leave e) = refl
move_queue (enter e) = refl
move_queue (pass e g) = refl
move_queue (test e g) = refl
move_queue sleep = refl
move_queue {p} (take e) = take_queue p p.queue refl e
move_queue end_job = refl
move_queue (finish e) = refl

runs_running : (j : ℕ) (job : Option ℕ) → runs j (running job) ≡ count_in j job
runs_running j none = refl
runs_running j (some k) = refl

-- A job that a worker takes is in its hand until it has run.
pub move_in_hand :
    {p p' : Pool} {pc pc' : Pc} {b e : Option ℕ}
    → Move p pc p' pc' b e
    → (j : ℕ) → runs j pc + count_in j b ≡ runs j pc' + count_in j e
move_in_hand (leave e) j = refl
move_in_hand (enter e) j = refl
move_in_hand (pass e g) j = refl
move_in_hand (test e g) j = refl
move_in_hand sleep j = refl
move_in_hand (take {job} e) j = omega (arith, runs_running j job)
move_in_hand (end_job {job}) j = omega (arith, runs_running j job)
move_in_hand (finish e) j = refl

log-append : (o : Option ℕ) (js : List ℕ) → log o js ≡ js ++ log o []
log-append none js = sym (append-nil js)
log-append (some j) js = refl

pub record Log (s : System) : Type 0 where
  pub in_order : s.started ++ s.pool.queue ≡ s.submitted
  pub in_hand : (j : ℕ) → count j s.started ≡ count j s.done + weigh (runs j) s.workers

Inner-Log : {s t : System} → Inner s t → Log s → Log t
Inner-Log {s} (work i {p'} {pc' = pc'} {begun = b} {ended = e} h mv) l = record {
  in_order = rw (log-append b s.started, append_assoc, move_queue mv) l.in_order;
  in_hand = λ j. omega (
    arith,
    count-log j b s.started,
    count-log j e s.done,
    l.in_hand j,
    move_in_hand mv j,
    weigh-set (runs j) s.workers i pc' h,
  );
}
Inner-Log {s} (notify_all e) l = record {
  in_order = l.in_order;
  in_hand = λ j. omega (arith, l.in_hand j, (Roused-map s.workers).jobs j);
}
Inner-Log (joined e h) l = record { in_order = l.in_order; in_hand = l.in_hand }

pub notify-runs :
    {ws ws' : List Pc} → NotifyOne ws ws' → (j : ℕ) → weigh (runs j) ws' ≡ weigh (runs j) ws
notify-runs (nobody z) j = refl
notify-runs {ws} (somebody i h) j = omega (arith, weigh-set (runs j) ws i at_lock h)

Step-Log : {s t : System} → Step s t → Log s → Log t
unfolding ThreadPool.add_job
Step-Log (inner st) l = Inner-Log st l
Step-Log {s} (spurious i h) l = record {
  in_order = l.in_order;
  in_hand = λ j. omega (arith, l.in_hand j, weigh-set (runs j) s.workers i at_lock h);
}
Step-Log {s} (add job alive free note) l = record {
  in_order = rw (← append_assoc, l.in_order);
  in_hand = λ j. omega (arith, l.in_hand j, notify-runs note j);
}
Step-Log (spurious_owner e) l = record { in_order = l.in_order; in_hand = l.in_hand }
Step-Log (call_wait e) l = record { in_order = l.in_order; in_hand = l.in_hand }
Step-Log (wait_blocks e free g) l = record { in_order = l.in_order; in_hand = l.in_hand }
Step-Log (wait_returns e free g) l = record { in_order = l.in_order; in_hand = l.in_hand }
Step-Log (destroy e) l = record { in_order = l.in_order; in_hand = l.in_hand }

-- First in, first out, and nothing lost or run twice: in every reachable state the jobs taken so far,
-- followed by the queue, are the jobs added, in the order of their calls; and each job has been taken
-- as often as it has run to its end or is in the hand of a worker.
pub Reach-Log : {n : ℕ} {s : System} → Reach n s → Log s
Reach-Log {n} start = record {
  in_order = refl;
  in_hand = λ j. omega (arith, weigh-replicate (runs j) n head refl);
}
Reach-Log (later r st) = Step-Log st (Reach-Log r)
