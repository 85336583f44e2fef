-- ===== src/ThreadPool/Executor.antt =====
-- `ThreadPoolJobsExecutor` on its pool: the counting of JobCounter.antt and the workers of System.antt at
-- once. The executor's job `i` is the job `i` of the pool that counts itself down at its end; the jobs that
-- others give to the pool have numbers that the executor has not.
pub mod Coupling
pub mod Progress
pub mod Completion
mod Tests
use fbutils.Prelude.{
  ℕ, ◌≡◌, ◌≢◌, ◌⊎◌, true, false, some, none, List, [], ◌∷◌, ◌++◌, map, get_elem?, set,
}
use fbutils.ThreadPool
use fbutils.ThreadPool.System.{
  Pc, running, destroyed, System as PoolSystem, NotifyOne, Inner, Step as PoolStep,
  Reach as PoolReach, init as pool_init,
}
use fbutils.ThreadPool.Counts.{count}
use fbutils.ThreadPool.JobCounter
use fbutils.ThreadPool.JobCounter.{
  Job, fresh, counted, submitted, ran, finished, System as Counter, Step as CounterStep,
  init as counter_init,
}

pub record Executor : Type 0 where
  pub counter : Counter
  pub pool : PoolSystem

-- What others do: they do not add the executor's jobs, and a worker leaves one only when it has counted
-- itself down.
abbrev pub IsOthers : List Job → PoolSystem → PoolSystem → Type 0
IsOthers jobs s t =
    (j : ℕ)
    → ((count j t.submitted ≡ count j s.submitted) ⊎ (get_elem? jobs j ≡ none))
      × ((count j t.done ≡ count j s.done)
          ⊎ ((get_elem? jobs j ≡ none) ⊎ (get_elem? jobs j ≡ some finished)))

-- What goes on with the jobs that are counted
pub data Work (s : Executor) : Executor → Type 0 where
  -- `mTP.addJob` in `addJob`
  submit :
      (i : ℕ) {ws : List Pc}
      → get_elem? s.counter.jobs i ≡ some counted
      → s.pool.owner ≢ destroyed
      → s.pool.pool.locked ≡ false
      → NotifyOne s.pool.workers ws
      → Work s (record {
        counter = record s.counter { jobs = set s.counter.jobs i submitted };
        pool = record s.pool {
          pool = ThreadPool.add_job i s.pool.pool;
          workers = ws;
          submitted = s.pool.submitted ++ i ∷ [];
        };
      })
  -- the end of `pJob()` on a worker
  run :
      (i w : ℕ)
      → get_elem? s.counter.jobs i ≡ some submitted
      → get_elem? s.pool.workers w ≡ some (running (some i))
      → Work s (record s { counter = record s.counter { jobs = set s.counter.jobs i ran } })
  -- the block behind it
  uncount :
      (i w : ℕ)
      → get_elem? s.counter.jobs i ≡ some ran
      → get_elem? s.pool.workers w ≡ some (running (some i))
      → Work s (record s {
        counter = record {
          num_jobs = JobCounter.count_down s.counter.num_jobs;
          jobs = set s.counter.jobs i finished;
          waiters = map JobCounter.wake s.counter.waiters;
        };
      })
  workers :
      {t : PoolSystem}
      → Inner s.pool t
      → IsOthers s.counter.jobs s.pool t
      → Work s (record s { pool = t })

pub data Step (s : Executor) : Executor → Type 0 where
  work : {t : Executor} → Work s t → Step s t
  -- the first block of `addJob`
  count_up :
      (i : ℕ)
      → get_elem? s.counter.jobs i ≡ some fresh
      → Step s (record s {
        counter = record s.counter {
          num_jobs = JobCounter.increment s.counter.num_jobs;
          jobs = set s.counter.jobs i counted;
        };
      })
  -- `waitForCompletion`
  wait :
      {t : Counter}
      → CounterStep s.counter t
      → t.jobs ≡ s.counter.jobs
      → t.num_jobs ≡ s.counter.num_jobs
      → Step s (record s { counter = t })
  others :
      {t : PoolSystem}
      → PoolStep s.pool t
      → IsOthers s.counter.jobs s.pool t
      → Step s (record s { pool = t })

-- A pool of `n` workers, `m` jobs for the executor, and `k` threads that may wait for it
abbrev pub start_of : ℕ → ℕ → ℕ → Executor
start_of n m k = record { counter = counter_init m k; pool = pool_init n }

pub data Reach (n m k : ℕ) : Executor → Type 0 where
  start : Reach n m k (start_of n m k)
  later : {s t : Executor} → Reach n m k s → Step s t → Reach n m k t
