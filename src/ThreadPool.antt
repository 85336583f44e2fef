-- ===== src/ThreadPool.antt =====
-- include/fbu/thread_pool.hpp: `fbu::ThreadPool`, `fbu::ThreadPoolJobsExecutor`, `fbu::JobCounter`.
--
-- Here: the fields of `ThreadPool`, and what each method does to them between taking and releasing
-- `mJobsQueueMutex`. `mTerminate` is also read and written outside the mutex: the program points at
-- which that matters are those of ThreadPool/System.antt. A job is a number.
pub mod System
mod Counts
pub mod Invariant
pub mod Jobs
pub mod Safety
pub mod Progress
pub mod Destruction
pub mod Shutdown
pub mod JobCounter
pub mod Executor
pub mod Spec
mod Tests
use fbutils.Prelude.{
  ℕ, ◌+◌, ◌-◌, ◌%◌, ◌^◌, Bool, true, false, not, ◌&&◌, ◌||◌, ◌==◌, ltb, if◌then◌else◌, Option, none,
  some, List, [], ◌∷◌, ◌++◌,
}

pub record Pool : Type 0 where
  pub terminate : Bool
  pub busy : ℕ  -- `std::atomic_int`, as its bits
  pub queue : List ℕ
  pub locked : Bool  -- whether a worker holds `mJobsQueueMutex`

abbrev pub is_empty : List ℕ → Bool
is_empty [] = true
is_empty (j ∷ js) = false

-- `n > 0`, for the bits of an `int`
abbrev pub positive : ℕ → Bool
positive n = ltb 0 n && ltb n (2 ^ 31)

-- The size of `mThreads`: `pNumThreads` and `std::thread::hardware_concurrency()` as bits.
unfoldable pub num_threads : ℕ → ℕ → ℕ
num_threads wanted hardware =
    if not (wanted == 0) then wanted else (if not (hardware == 0) then hardware else 2)

abbrev pub new_pool : Pool
new_pool = record { terminate = false; busy = 0; queue = []; locked = false }

-- `addJob`, which also signals one worker.
unfoldable pub add_job : ℕ → Pool → Pool
add_job job p = record p { queue = p.queue ++ job ∷ [] }

-- The test of the `while` in `waitForCompletion`.
unfoldable pub must_wait : Pool → Bool
must_wait p = not (is_empty p.queue) || positive p.busy

-- The predicate of the wait in `grabNextJob`.
unfoldable pub may_grab : Pool → Bool
may_grab p = not (is_empty p.queue) || p.terminate

-- `lJob.swap(mJobsQueue.front()); mJobsQueue.pop();`, with the assertion above it.
unfoldable pub pop_job : Pool → List ℕ → Option (Option ℕ × Pool)
pop_job p [] = none
pop_job p (job ∷ rest) = some (some job, record p { queue = rest })

-- `grabNextJob` after its wait, up to its return, where the mutex is released. The job is none where
-- it is the empty lambda; the result is none where the assertion fails.
unfoldable pub take_job : Pool → Option (Option ℕ × Pool)
unfolding pop_job
take_job p =
    let counted : Pool = record p { busy = (p.busy + 1) % 2 ^ 32; locked = false } in
    if not p.terminate then pop_job counted p.queue else some (none, counted)

-- `threadExecLoop` after a job, which also signals `mCompletionCV`.
unfoldable pub finish_job : Pool → Pool
finish_job p = record p { busy = (p.busy + (2 ^ 32 - 1)) % 2 ^ 32 }
