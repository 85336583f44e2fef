-- ===== src/ThreadPool/Executor/Completion.antt =====
-- That the jobs of an executor come to an end.
use fbutils.Prelude.{
  ℕ, suc, ◌+◌, ◌≤◌, ◌<◌, ◌^◌, ◌≡◌, ◌⊎◌, inl, inr, true, false, some, List, [], ◌∷◌, arith, weigh,
  weigh-set, get_elem?, length-append, Bool-cases,
}
use fbutils.ThreadPool
use fbutils.ThreadPool.System.{Pc, at_lock, NotifyOne, nobody, somebody}
use fbutils.ThreadPool.Counts.{count}
use fbutils.ThreadPool.Invariant.{Reach-Consistent}
use fbutils.ThreadPool.Progress.{steps_left, left, Inner-less}
use fbutils.ThreadPool.JobCounter
use fbutils.ThreadPool.JobCounter.{Job, fresh, counted, submitted, ran, finished}
use fbutils.ThreadPool.Executor.{Executor, Work, submit, run, uncount, workers, work, Reach, later}
use fbutils.ThreadPool.Executor.Coupling.{Reach-both, executor_lem}
use fbutils.ThreadPool.Executor.Progress.{executor_goes_on}

pub data Runs (s : Executor) : Executor → Type 0 where
  here : Runs s s
  next : {t u : Executor} → Runs s t → Work t u → Runs s u

abbrev pub steps : {s t : Executor} → Runs s t → ℕ
steps here = 0
steps (next runs step) = suc (steps runs)

-- How far a job is from its end: handing it over puts it in the queue and may wake a worker.
abbrev pub job_left : Job → ℕ
job_left fresh = 0
job_left counted = 11
job_left submitted = 2
job_left ran = 1
job_left finished = 0

abbrev pub work_left : Executor → ℕ
work_left s = left s.pool + weigh job_left s.counter.jobs

woken_left : {ws ws' : List Pc} → NotifyOne ws ws' → weigh steps_left ws' ≤ weigh steps_left ws + 3
woken_left (nobody z) = omega arith
woken_left {ws} (somebody i h) = omega (arith, weigh-set steps_left ws i at_lock h)

Work-less :
    {n m k : ℕ} {s t : Executor}
    → 0 < n
    → n < 2 ^ 31
    → Reach n m k s
    → s.pool.pool.terminate ≡ false
    → Work s t
    → (work_left t < work_left s) × (t.pool.pool.terminate ≡ false)
unfolding ThreadPool.add_job
Work-less {s = s} pos few r go_on (submit i h alive free note) = (
  omega (
    arith,
    woken_left note,
    weigh-set job_left s.counter.jobs i submitted h,
    length-append s.pool.pool.queue (i ∷ []),
  ),
  go_on,
)
Work-less {s = s} pos few r go_on (run i w h g) =
    (omega (arith, weigh-set job_left s.counter.jobs i ran h), go_on)
Work-less {s = s} pos few r go_on (uncount i w h g) =
    (omega (arith, weigh-set job_left s.counter.jobs i finished h), go_on)
Work-less pos few r go_on (workers step others) =
    let (less, on) = Inner-less (Reach-Consistent pos few (Reach-both r).0) go_on step in
    (omega (arith, less), on)

run-Reach :
    {n m k : ℕ} {s t : Executor}
    → 0 < n
    → n < 2 ^ 31
    → Reach n m k s
    → s.pool.pool.terminate ≡ false
    → (runs : Runs s t)
    → Reach n m k t × (t.pool.pool.terminate ≡ false) × (steps runs + work_left t ≤ work_left s)
run-Reach pos few r go_on here = (r, go_on, omega arith)
run-Reach pos few r go_on (next runs step) =
    let (before, on, bound) = run-Reach pos few r go_on runs in
    let (less, still_on) = Work-less pos few before on step in
    (later before (work step), still_on, omega arith)

-- Every job of the executor that is counted comes to its end, if jobs return, and its `waitForCompletion`
-- returns: for a pool of 1 to 2 ^ 31 - 1 workers that is not being destroyed and fewer than 2 ^ 31 jobs, from
-- every reachable state, handing over the jobs that are counted and the workers together take at most
-- `work_left s` steps, in whatever order, while no further call is made; and where no such step is left, the
-- predicate of the wait holds, no thread sleeps in `waitForCompletion`, and each job has not been counted,
-- and not been given to the pool, or has counted itself down, has been taken from the queue exactly once
-- and is not in the queue.
pub executor_ends :
    {n m k : ℕ} {s t : Executor}
    → 0 < n
    → n < 2 ^ 31
    → m < 2 ^ 31
    → Reach n m k s
    → s.pool.pool.terminate ≡ false
    → (runs : Runs s t)
    → (steps runs ≤ work_left s)
      × (((u : Executor) → ¬ Work t u)
          → (JobCounter.is_complete t.counter.num_jobs ≡ true)
            × (weigh JobCounter.is_sleeping t.counter.waiters ≡ 0)
            × ((i : ℕ) (job : Job)
                → get_elem? t.counter.jobs i ≡ some job
                → ((job ≡ fresh) × (count i t.pool.submitted ≡ 0))
                  ⊎ ((job ≡ finished)
                      × (count i t.pool.started ≡ 1)
                      × (count i t.pool.pool.queue ≡ 0))))
executor_ends {t = t} pos few few_jobs r go_on runs =
    let (reached, on, bound) = run-Reach pos few r go_on runs in
    (
      omega arith,
      λ rests. elim (Bool-cases (JobCounter.is_complete t.counter.num_jobs)) [
        | inl complete ↦
            let (all, nobody_sleeps) = executor_lem few_jobs reached complete in
            (complete, nobody_sleeps, all)
        | inr incomplete ↦
            let (u, step) = executor_goes_on pos few few_jobs reached on incomplete in
            absurd (rests u step)
      ],
    )
