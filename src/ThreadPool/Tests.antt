-- ===== src/ThreadPool/Tests.antt =====
-- Runs of a pool with one worker, and the theorems at concrete states.
use fbutils.Prelude.{
  ℕ, ◌≤◌, ◌≡◌, ◌≢◌, refl, Bool, true, false, some, none, List, [], ◌∷◌, arith, weigh, get_elem?,
  length,
}
use fbutils.ThreadPool
use fbutils.ThreadPool.{Pool}
use fbutils.ThreadPool.System.{
  Pc, head, at_lock, tested, passed, running, exited, outside, joining, destroyed, System, inner,
  add, destroy, notify_all, work, leave, enter, pass, test, take, end_job, finish, nobody, Inner,
  Reach, start, later, init, is_exited,
}
use fbutils.ThreadPool.Counts.{is_busy, count}
use fbutils.ThreadPool.Invariant.{is_waiting}
use fbutils.ThreadPool.Jobs.{Log, Reach-Log}
use fbutils.ThreadPool.Safety.{completion, pool_asserts_pass}
use fbutils.ThreadPool.Shutdown.{Runs, here, next, IsStuck, lost_wakeup}
use fbutils.ThreadPool.Progress.{work_ends}
use fbutils.ThreadPool.Destruction.{destructor_returns}
use fbutils.ThreadPool.JobCounter

sizes :
    (ThreadPool.num_threads 3 8 ≡ 3)
    × (ThreadPool.num_threads 0 8 ≡ 8)
    × (ThreadPool.num_threads 0 0 ≡ 2)
unfolding ThreadPool.num_threads
sizes = (refl, refl, refl)

-- One worker, with nothing queued: it is about to sleep.
abbrev about_to_sleep : System
about_to_sleep = record (init 1) {
  pool = record { terminate = false; busy = 0; queue = []; locked = true };
  workers = tested ∷ [];
}

about_to_sleep_reached : Reach 1 about_to_sleep
unfolding ThreadPool.may_grab
about_to_sleep_reached =
    later (later start (inner (work 0 refl (enter refl)))) (inner (work 0 refl (test refl refl)))

-- One worker and one job: queued, passed, in hand, done.
abbrev with_job : Bool → ℕ → List ℕ → Pc → List ℕ → List ℕ → System
with_job locked busy queue pc started done = record {
  pool = record { terminate = false; busy = busy; queue = queue; locked = locked };
  workers = pc ∷ [];
  owner = outside;
  submitted = 7 ∷ [];
  started = started;
  done = done;
}

queued_reached : Reach 1 (with_job false 0 (7 ∷ []) at_lock [] [])
unfolding ThreadPool.add_job
queued_reached =
    later (later start (inner (work 0 refl (enter refl))))
      (add 7 (λ e. ground arith) refl (nobody refl))

passed_reached : Reach 1 (with_job true 0 (7 ∷ []) passed [] [])
unfolding ThreadPool.may_grab
passed_reached = later queued_reached (inner (work 0 refl (pass refl refl)))

running_reached : Reach 1 (with_job false 1 [] (running (some 7)) (7 ∷ []) [])
unfolding ThreadPool.take_job
running_reached = later passed_reached (inner (work 0 refl (take refl)))

done_reached : Reach 1 (with_job false 0 [] head (7 ∷ []) (7 ∷ []))
unfolding ThreadPool.finish_job
done_reached =
    later (later running_reached (inner (work 0 refl end_job))) (inner (work 0 refl (finish refl)))

abbrev done_state : System
done_state = with_job false 0 [] head (7 ∷ []) (7 ∷ [])

Reach-Log_example : Log (with_job false 1 [] (running (some 7)) (7 ∷ []) [])
Reach-Log_example = Reach-Log running_reached

completion_example :
    (done_state.pool.queue ≡ [])
    × (weigh is_busy done_state.workers ≡ 0)
    × ((j : ℕ) → count j done_state.done ≡ count j done_state.submitted)
unfolding ThreadPool.must_wait
completion_example = completion {n = 1} (omega arith) (omega arith) done_reached refl refl

pool_asserts_pass_example :
    let s = with_job true 0 (7 ∷ []) passed [] [] in
    ((i : ℕ) → get_elem? s.workers i ≡ some passed → ThreadPool.take_job s.pool ≢ none)
    × (weigh is_exited s.workers ≡ length s.workers → s.pool.busy ≡ 0)
pool_asserts_pass_example = pool_asserts_pass {n = 1} (omega arith) (omega arith) passed_reached

-- The worker takes the job that is queued.
taking :
    Runs
      (with_job false 0 (7 ∷ []) at_lock [] [])
      (with_job false 1 [] (running (some 7)) (7 ∷ []) [])
unfolding ThreadPool.may_grab ThreadPool.take_job
taking = next (next here (work 0 refl (pass refl refl))) (work 0 refl (take refl))

work_ends_example :
    let t = with_job false 1 [] (running (some 7)) (7 ∷ []) [] in
    (2 ≤ 8)
    × (((u : System) → ¬ Inner t u)
        → (t.pool.queue ≡ [])
          × (weigh is_busy t.workers ≡ 0)
          × ((j : ℕ) → count j t.done ≡ count j t.submitted)
          × (is_waiting t.owner ≡ false))
unfolding taking
work_ends_example = work_ends {n = 1} (omega arith) (omega arith) queued_reached refl taking

lost_wakeup_example :
    (t : System) × Reach 1 t × IsStuck 0 t × ((u : System) → Runs t u → IsStuck 0 u)
lost_wakeup_example = lost_wakeup about_to_sleep_reached refl 0 refl

-- The destructor in `join`, with one worker that is to find out.
abbrev joining_state : System
joining_state = record (init 1) {
  pool = record { terminate = true; busy = 0; queue = []; locked = false };
  owner = joining;
}

joining_reached : Reach 1 joining_state
joining_reached = later (later start (destroy refl)) (inner (notify_all refl))

leaving : Runs joining_state (record joining_state { workers = exited ∷ [] })
leaving = next here (work 0 refl (leave refl))

destructor_returns_example :
    let t = record joining_state { workers = exited ∷ [] } in
    (1 ≤ 4)
    × (((u : System) → ¬ Inner t u)
        → (t.owner ≡ destroyed) × (weigh is_exited t.workers ≡ length t.workers))
unfolding leaving
destructor_returns_example =
    destructor_returns {n = 1} (omega arith) (omega arith) joining_reached refl refl leaving

-- One job that has run and is about to count itself down, and a thread that waits for it.
abbrev counting : JobCounter.System
counting = record { num_jobs = 1; jobs = JobCounter.ran ∷ []; waiters = JobCounter.sleeping ∷ [] }

counting_reached : JobCounter.Reach 1 1 counting
unfolding JobCounter.increment JobCounter.is_complete
counting_reached =
    JobCounter.later
      (JobCounter.later
        (JobCounter.later
          (JobCounter.later (JobCounter.later JobCounter.start (JobCounter.count 0 refl))
            (JobCounter.submit 0 refl))
          (JobCounter.run 0 refl))
        (JobCounter.call_wait 0 refl))
      (JobCounter.wait_blocks 0 refl refl)

counter_lem_example :
    (JobCounter.is_complete 1 ≡ true → weigh JobCounter.is_counted counting.jobs ≡ 0)
    × (weigh JobCounter.is_counted counting.jobs ≡ 0 → JobCounter.is_complete 1 ≡ true)
    × (JobCounter.is_complete 1 ≡ true → weigh JobCounter.is_sleeping counting.waiters ≡ 0)
    × ((i : ℕ)
        → get_elem? counting.jobs i ≡ some JobCounter.ran
        → JobCounter.decrement 1 ≡ some (JobCounter.count_down 1))
counter_lem_example = JobCounter.counter_lem {n = 1} {k = 1} (omega arith) counting_reached
