-- ===== src/ThreadPool/JobCounter.antt =====
-- The classes `JobCounter` and `ThreadPoolJobsExecutor`, which count jobs and wait for the count to be
-- 0. The executor counts a job up in `addJob`, hands it to the pool, and has the wrapped job count
-- itself down when it has run; a user of `JobCounter` does the same by hand.
use fbutils.Prelude.{
  ℕ, ◌+◌, ◌-◌, ◌≤◌, ◌<◌, ◌%◌, ◌^◌, ◌≡◌, ◌⊎◌, inl, refl, Bool, true, false, Option, none, some, List,
  [], ◌∷◌, map, arith, ltb, ◌==◌, if◌then◌else◌, weigh, weigh-set, weigh-replicate, weigh_le-length,
  le-weigh, get_elem?, set, length, length-set, replicate, length-replicate, ◌&&◌,
}

-- `mNumJobs` is a `std::atomic_int`, here its bits.
unfoldable pub increment : ℕ → ℕ
increment jobs = (jobs + 1) % 2 ^ 32

-- `--mNumJobs` in the executor's wrapped job, which then signals `mCompletion`.
unfoldable pub count_down : ℕ → ℕ
count_down jobs = (jobs + (2 ^ 32 - 1)) % 2 ^ 32

-- `JobCounter::decrement`; none where its assertion fails.
unfoldable pub decrement : ℕ → Option ℕ
unfolding count_down
decrement jobs = if ltb 0 jobs && ltb jobs (2 ^ 31) then some (count_down jobs) else none

-- The predicate of the wait in `waitForCompletion`.
unfoldable pub is_complete : ℕ → Bool
is_complete jobs = jobs == 0

-- One job, on its way through `addJob` and the pool.
pub data Job : Type 0 where
  fresh : Job
  counted : Job  -- counted up, and not yet with the pool
  submitted : Job
  ran : Job  -- its own work is done, and it is about to count itself down
  finished : Job

-- A thread in `waitForCompletion`.
pub data Waiter : Type 0 where
  out : Waiter
  testing : Waiter  -- about to lock the mutex and test the predicate, at first or after a signal
  sleeping : Waiter

pub record System : Type 0 where
  pub num_jobs : ℕ
  pub jobs : List Job
  pub waiters : List Waiter

abbrev pub is_counted : Job → ℕ
is_counted fresh = 0
is_counted finished = 0
is_counted _ = 1

abbrev pub is_sleeping : Waiter → ℕ
is_sleeping sleeping = 1
is_sleeping _ = 0

abbrev pub wake : Waiter → Waiter
wake sleeping = testing
wake out = out
wake testing = testing

pub data Step (s : System) : System → Type 0 where
  count :
      (i : ℕ)
      → get_elem? s.jobs i ≡ some fresh
      → Step s (record s { num_jobs = increment s.num_jobs; jobs = set s.jobs i counted })
  submit :
      (i : ℕ)
      → get_elem? s.jobs i ≡ some counted
      → Step s (record s { jobs = set s.jobs i submitted })
  run :
      (i : ℕ) → get_elem? s.jobs i ≡ some submitted → Step s (record s { jobs = set s.jobs i ran })
  uncount :
      (i : ℕ)
      → get_elem? s.jobs i ≡ some ran
      → Step s (record {
        num_jobs = count_down s.num_jobs;
        jobs = set s.jobs i finished;
        waiters = map wake s.waiters;
      })
  call_wait :
      (i : ℕ)
      → get_elem? s.waiters i ≡ some out
      → Step s (record s { waiters = set s.waiters i testing })
  wait_blocks :
      (i : ℕ)
      → get_elem? s.waiters i ≡ some testing
      → is_complete s.num_jobs ≡ false
      → Step s (record s { waiters = set s.waiters i sleeping })
  wait_returns :
      (i : ℕ)
      → get_elem? s.waiters i ≡ some testing
      → is_complete s.num_jobs ≡ true
      → Step s (record s { waiters = set s.waiters i out })
  spurious :
      (i : ℕ)
      → get_elem? s.waiters i ≡ some sleeping
      → Step s (record s { waiters = set s.waiters i testing })

abbrev pub init : ℕ → ℕ → System
init n k = record { num_jobs = 0; jobs = replicate n fresh; waiters = replicate k out }

pub data Reach (n k : ℕ) : System → Type 0 where
  start : Reach n k (init n k)
  later : {s t : System} → Reach n k s → Step s t → Reach n k t

pub record Inv (s : System) : Type 0 where
  pub few : length s.jobs < 2 ^ 31
  pub room : weigh is_counted s.jobs ≤ length s.jobs
  pub exact : s.num_jobs ≡ weigh is_counted s.jobs
  pub awaited : (weigh is_sleeping s.waiters ≡ 0) ⊎ (0 < s.num_jobs)

is_counted-le : (js : List Job) → weigh is_counted js ≤ length js
is_counted-le = weigh_le-length is_counted (λ j. ground arith)

none_sleeping : (ws : List Waiter) → weigh is_sleeping (map wake ws) ≡ 0
none_sleeping [] = refl
none_sleeping (w ∷ ws) = ground (arith, none_sleeping ws)

module _ {s : System} (inv : Inv s) where
  job_moves :
      (i : ℕ) {j : Job} (j' : Job)
      → get_elem? s.jobs i ≡ some j
      → (weigh is_counted (set s.jobs i j') + is_counted j
          ≡ weigh is_counted s.jobs + is_counted j')
        × (length (set s.jobs i j') ≡ length s.jobs)
        × (weigh is_counted (set s.jobs i j') ≤ length (set s.jobs i j'))
  job_moves i j' h =
      (weigh-set is_counted s.jobs i j' h, length-set s.jobs i j', is_counted-le (set s.jobs i j'))

Step-Inv : {s t : System} → Step s t → Inv s → Inv t
unfolding increment count_down is_complete
Step-Inv {s} (count i h) inv = let f = job_moves {s = s} inv i counted h in ground arith
Step-Inv {s} (submit i h) inv = let f = job_moves {s = s} inv i submitted h in ground arith
Step-Inv {s} (run i h) inv = let f = job_moves {s = s} inv i ran h in ground arith
Step-Inv {s} (uncount i h) inv =
    let f = job_moves {s = s} inv i finished h in ground (arith, none_sleeping s.waiters)
Step-Inv {s} (call_wait i h) inv = ground (arith, weigh-set is_sleeping s.waiters i testing h)
Step-Inv {s} (wait_blocks i h e) inv = ground (arith, weigh-set is_sleeping s.waiters i sleeping h)
Step-Inv {s} (wait_returns i h e) inv = ground (arith, weigh-set is_sleeping s.waiters i out h)
Step-Inv {s} (spurious i h) inv = ground (arith, weigh-set is_sleeping s.waiters i testing h)

pub Reach-Inv : {n k : ℕ} {s : System} → n < 2 ^ 31 → Reach n k s → Inv s
Reach-Inv {n} {k} few start = record {
  few = omega (arith, length-replicate n fresh);
  room = is_counted-le (replicate n fresh);
  exact = omega (arith, weigh-replicate is_counted n fresh refl);
  awaited = inl (weigh-replicate is_sleeping k out refl);
}
Reach-Inv few (later r st) = Step-Inv st (Reach-Inv few r)

-- `waitForCompletion` returns only when the work is done, is never left asleep once it is, and
-- `decrement` passes its assertion: for fewer than 2 ^ 31 jobs, in every reachable state, the predicate
-- of the wait holds exactly when no job is counted up and not yet down; if it holds, no thread sleeps in
-- `waitForCompletion`; and a job that counts itself down finds a positive count.
pub counter_lem :
    {n k : ℕ} {s : System}
    → n < 2 ^ 31
    → Reach n k s
    → (is_complete s.num_jobs ≡ true → weigh is_counted s.jobs ≡ 0)
      × (weigh is_counted s.jobs ≡ 0 → is_complete s.num_jobs ≡ true)
      × (is_complete s.num_jobs ≡ true → weigh is_sleeping s.waiters ≡ 0)
      × ((i : ℕ)
          → get_elem? s.jobs i ≡ some ran
          → decrement s.num_jobs ≡ some (count_down s.num_jobs))
unfolding is_complete decrement
counter_lem {s} few r =
    let inv = Reach-Inv few r in
    (
      λ e. ground (arith, inv.exact),
      λ e. ground (arith, inv.exact),
      λ e. ground (arith, inv.awaited),
      λ i h. ground (arith, inv.exact, inv.few, inv.room, le-weigh is_counted s.jobs i h),
    )
