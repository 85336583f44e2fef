-- ===== src/ThreadPool/Executor/Tests.antt =====
-- An executor with one job on a pool with one worker, and the theorems there.
use fbutils.Prelude.{
  ℕ, ◌≤◌, ◌≡◌, ◌⊎◌, inl, refl, true, false, some, List, [], ◌∷◌, arith, weigh, get_elem?,
}
use fbutils.ThreadPool
use fbutils.ThreadPool.System.{
  Pc, head, at_lock, running, outside, System as PoolSystem, nobody, enter, pass, take, end_job,
}
use fbutils.ThreadPool.System
use fbutils.ThreadPool.Counts.{count}
use fbutils.ThreadPool.JobCounter
use fbutils.ThreadPool.JobCounter.{Job, fresh, counted, submitted, ran, finished, out}
use fbutils.ThreadPool.Executor.{
  Executor, Work, submit, run, uncount, workers, work, count_up, Reach, start, later,
}
use fbutils.ThreadPool.Executor.Coupling.{executor_lem}
use fbutils.ThreadPool.Executor.Completion.{Runs, here, next, steps, work_left, executor_ends}

abbrev pool_with : List ℕ → ℕ → Pc → List ℕ → List ℕ → PoolSystem
pool_with queue busy pc given taken = record {
  pool = record { terminate = false; busy = busy; queue = queue; locked = false };
  workers = pc ∷ [];
  owner = outside;
  submitted = given;
  started = taken;
  done = [];
}

abbrev executor : ℕ → Job → PoolSystem → Executor
executor num_jobs job pool = record {
  counter = record { num_jobs = num_jobs; jobs = job ∷ []; waiters = out ∷ [] };
  pool = pool;
}

abbrev handed_over : Executor
handed_over = executor 1 submitted (pool_with (0 ∷ []) 0 head (0 ∷ []) [])

handed_over_reached : Reach 1 1 1 handed_over
unfolding JobCounter.increment ThreadPool.add_job
handed_over_reached =
    later (later start (count_up 0 refl))
      (work (submit 0 refl (λ e. ground arith) refl (nobody refl)))

running_reached :
    Reach 1 1 1 (executor 1 submitted (pool_with [] 1 (running (some 0)) (0 ∷ []) (0 ∷ [])))
unfolding ThreadPool.may_grab ThreadPool.take_job
running_reached =
    later
      (later
        (later handed_over_reached
          (work (workers (System.work 0 refl (enter refl)) (λ j. (inl refl, inl refl)))))
        (work (workers (System.work 0 refl (pass refl refl)) (λ j. (inl refl, inl refl)))))
      (work (workers (System.work 0 refl (take refl)) (λ j. (inl refl, inl refl))))

abbrev counted_down : Executor
counted_down = executor 0 finished (pool_with [] 1 (running (some 0)) (0 ∷ []) (0 ∷ []))

counted_down_reached : Reach 1 1 1 counted_down
unfolding JobCounter.count_down
counted_down_reached =
    later (later running_reached (work (run 0 0 refl refl))) (work (uncount 0 0 refl refl))

executor_lem_example :
    let s = counted_down in
    ((i : ℕ) (job : Job)
      → get_elem? s.counter.jobs i ≡ some job
      → ((job ≡ fresh) × (count i s.pool.submitted ≡ 0))
        ⊎ ((job ≡ finished) × (count i s.pool.started ≡ 1) × (count i s.pool.pool.queue ≡ 0)))
    × (weigh JobCounter.is_sleeping s.counter.waiters ≡ 0)
unfolding JobCounter.is_complete
executor_lem_example = executor_lem {n = 1} {m = 1} {k = 1} (omega arith) counted_down_reached refl

abbrev at_the_lock : Executor
at_the_lock = executor 1 submitted (pool_with (0 ∷ []) 0 at_lock (0 ∷ []) [])

worker_enters : Runs handed_over at_the_lock
worker_enters = next here (workers (System.work 0 refl (enter refl)) (λ j. (inl refl, inl refl)))

executor_ends_example :
    let t = at_the_lock in
    (steps worker_enters ≤ work_left handed_over)
    × (((u : Executor) → ¬ Work t u)
        → (JobCounter.is_complete t.counter.num_jobs ≡ true)
          × (weigh JobCounter.is_sleeping t.counter.waiters ≡ 0)
          × ((i : ℕ) (job : Job)
              → get_elem? t.counter.jobs i ≡ some job
              → ((job ≡ fresh) × (count i t.pool.submitted ≡ 0))
                ⊎ ((job ≡ finished)
                    × (count i t.pool.started ≡ 1)
                    × (count i t.pool.pool.queue ≡ 0))))
executor_ends_example =
    executor_ends {n = 1} {m = 1} {k = 1} (omega arith) (omega arith) (omega arith)
      handed_over_reached refl worker_enters
