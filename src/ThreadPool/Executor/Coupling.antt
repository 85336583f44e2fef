-- ===== src/ThreadPool/Executor/Coupling.antt =====
-- How the count of an executor and its pool go together.
use mathlib.Core.Path.{subst}
use mathlib.Core.Option.{some-injective}
use fbutils.Prelude.{
  ℕ, ◌+◌, ◌≤◌, ◌<◌, ◌^◌, ◌≡◌, ◌≢◌, ◌⊎◌, inl, inr, refl, sym, ◌∙◌, ap, true, some, List, [], ◌∷◌,
  ◌++◌, arith, weigh, length, length-set, weigh-append, le-weigh, get_elem?, get_elem?-set_self,
  get_elem?-set_ne, lt-length_of_get_elem?, set, ℕ_discrete, ==_refl, ==-false, get_elem?-replicate,
}
use fbutils.ThreadPool
use fbutils.ThreadPool.System.{
  Pc, running, System as PoolSystem, Inner, Step as PoolStep, Reach as PoolReach, inner, spurious,
  spurious_owner, add, call_wait, wait_blocks, wait_returns, destroy,
}
use fbutils.ThreadPool.System
use fbutils.ThreadPool.Counts.{count, count-log, runs, same}
use fbutils.ThreadPool.Jobs.{Log, Reach-Log}
use fbutils.ThreadPool.JobCounter
use fbutils.ThreadPool.JobCounter.{
  Job, fresh, counted, submitted, ran, finished, Reach as CounterReach, counter_lem, is_counted,
}
use fbutils.ThreadPool.Executor.{
  Executor, IsOthers, submit, run, uncount, workers, Step, work, count_up, wait, others, Reach,
  start, later, start_of,
}

-- Each of the two goes its own way.
pub Reach-both :
    {n m k : ℕ} {s : Executor} → Reach n m k s → PoolReach n s.pool × CounterReach m k s.counter
Reach-both start = (System.start, JobCounter.start)
Reach-both (later r (work (submit i h alive free note))) =
    let (p, c) = Reach-both r in
    (System.later p (add i alive free note), JobCounter.later c (JobCounter.submit i h))
Reach-both (later r (work (run i w h g))) =
    let (p, c) = Reach-both r in (p, JobCounter.later c (JobCounter.run i h))
Reach-both (later r (work (uncount i w h g))) =
    let (p, c) = Reach-both r in (p, JobCounter.later c (JobCounter.uncount i h))
Reach-both (later r (work (workers step o))) =
    let (p, c) = Reach-both r in (System.later p (inner step), c)
Reach-both (later r (count_up i h)) =
    let (p, c) = Reach-both r in (p, JobCounter.later c (JobCounter.count i h))
Reach-both (later r (wait step a b)) = let (p, c) = Reach-both r in (p, JobCounter.later c step)
Reach-both (later r (others step o)) = let (p, c) = Reach-both r in (System.later p step, c)

abbrev pub handed : Job → ℕ
handed fresh = 0
handed counted = 0
handed _ = 1

abbrev pub has_run : Job → ℕ
has_run ran = 1
has_run finished = 1
has_run _ = 0

abbrev pub has_finished : Job → ℕ
has_finished finished = 1
has_finished _ = 0

-- What the pool says of the executor's job `j` that stands at `job`
abbrev pub Fits : PoolSystem → ℕ → Job → Type 0
Fits p j job =
    (count j p.submitted ≡ handed job)
    × (count j p.done ≤ has_finished job)
    × (has_run job ≤ count j p.started)

abbrev pub IsCoupled : List Job → PoolSystem → Type 0
IsCoupled jobs p = (j : ℕ) (job : Job) → get_elem? jobs j ≡ some job → Fits p j job

-- What the pool has begun and what is queued was given to it, and it ends only what it has begun.
pub tally :
    {p : PoolSystem}
    → Log p
    → (j : ℕ)
    → (count j p.started + count j p.pool.queue ≡ count j p.submitted)
      × (count j p.started ≡ count j p.done + weigh (runs j) p.workers)
tally {p} log j =
    (sym (weigh-append (same j) p.started p.pool.queue) ∙ ap (count j) log.in_order, log.in_hand j)

set_cases :
    (jobs : List Job) (i j : ℕ) (new : Job) {job : Job}
    → get_elem? (set jobs i new) j ≡ some job
    → ((i ≡ j) × (new ≡ job)) ⊎ ((i ≢ j) × (get_elem? jobs j ≡ some job))
set_cases jobs i j new {job} held = elim (ℕ_discrete i j) [
  | yes e ↦
      let there : get_elem? (set jobs i new) i ≡ some job =
        ap (get_elem? (set jobs i new)) e ∙ held in
      let inside : i < length jobs =
        omega (arith, length-set jobs i new, lt-length_of_get_elem? (set jobs i new) i there) in
      inl (e, some-injective new job (sym (get_elem?-set_self jobs i new inside) ∙ there))
  | no ne ↦ inr (ne, sym (get_elem?-set_ne jobs new ne) ∙ held)
]

-- One job moves on, and the pool stays.
set-IsCoupled :
    (jobs : List Job) (p : PoolSystem) (i : ℕ) (new : Job)
    → IsCoupled jobs p
    → Fits p i new
    → IsCoupled (set jobs i new) p
set-IsCoupled jobs p i new coupled fits j job held = elim (set_cases jobs i j new held) [
  | inl (e, same_job) ↦ subst (λ k. Fits p k job) e (subst (Fits p i) same_job fits)
  | inr (ne, before) ↦ coupled j job before
]

pub count-other : (j i : ℕ) → i ≢ j → (js : List ℕ) → count j (js ++ i ∷ []) ≡ count j js
count-other j i ne js =
    let apart : same j i ≡ 0 = rw (==-false j i (λ e. ne (sym e))) refl in
    omega (arith, weigh-append (same j) js (i ∷ []), apart)

started_grows : {s t : PoolSystem} → PoolStep s t → (j : ℕ) → count j s.started ≤ count j t.started
started_grows {s} (inner (System.work i {begun = b} h mv)) j =
    omega (arith, count-log j b s.started)
started_grows (inner (System.notify_all e)) j = omega arith
started_grows (inner (System.joined e all)) j = omega arith
started_grows (spurious i h) j = omega arith
started_grows (spurious_owner e) j = omega arith
started_grows (add job alive free note) j = omega arith
started_grows (call_wait e) j = omega arith
started_grows (wait_blocks e free g) j = omega arith
started_grows (wait_returns e free g) j = omega arith
started_grows (destroy e) j = omega arith

-- The pool moves on.
pool-IsCoupled :
    {n : ℕ} (jobs : List Job) {p t : PoolSystem}
    → PoolReach n p
    → PoolStep p t
    → IsOthers jobs p t
    → IsCoupled jobs p
    → IsCoupled jobs t
pool-IsCoupled jobs {p} {t} r step alone coupled j job held =
    let (given, over, begun) = coupled j job held in
    let (given_same, over_same) = alone j in
    let (all, hand) = tally (Reach-Log (System.later r step)) j in
    let given' : count j t.submitted ≡ handed job = elim given_same [
      | inl e ↦ e ∙ given
      | inr e ↦ absurd (cc)
    ] in
    (
      given',
      elim over_same [
        | inl e ↦ omega arith
        | inr (inl e) ↦ absurd cc
        | inr (inr e) ↦
            let at_end : finished ≡ job = some-injective finished job (sym e ∙ held) in
            omega (arith, ap handed at_end, ap has_finished at_end)
      ],
      omega (arith, started_grows step j),
    )

submit-IsCoupled :
    (jobs : List Job) (p : PoolSystem) (i : ℕ) (ws : List Pc)
    → IsCoupled jobs p
    → get_elem? jobs i ≡ some counted
    → IsCoupled (set jobs i submitted) (record p {
      pool = ThreadPool.add_job i p.pool;
      workers = ws;
      submitted = p.submitted ++ i ∷ [];
    })
submit-IsCoupled jobs p i ws coupled h j job held = elim (set_cases jobs i j submitted held) [
  | inl (e, same_job) ↦
      let (given, over, begun) = coupled i counted h in
      let mine : same i i ≡ 1 = rw (==_refl i) refl in
      let now : PoolSystem = record p {
        pool = ThreadPool.add_job i p.pool;
        workers = ws;
        submitted = p.submitted ++ i ∷ [];
      } in
      subst (λ k. Fits now k job) e
        (subst (Fits now i) same_job
          (omega (arith, weigh-append (same i) p.submitted (i ∷ [])), over, omega arith))
  | inr (ne, before) ↦
      let (given, over, begun) = coupled j job before in
      (count-other j i ne p.submitted ∙ given, over, begun)
]

pub in_hand-started :
    {n : ℕ} {p : PoolSystem} (i w : ℕ)
    → PoolReach n p
    → get_elem? p.workers w ≡ some (running (some i))
    → 0 < count i p.started
in_hand-started {p = p} i w r h =
    let mine : same i i ≡ 1 = rw (==_refl i) refl in
    omega (arith, (tally (Reach-Log r) i).1, le-weigh (runs i) p.workers w h)

Step-IsCoupled :
    {n : ℕ} {s t : Executor}
    → PoolReach n s.pool
    → Step s t
    → IsCoupled s.counter.jobs s.pool
    → IsCoupled t.counter.jobs t.pool
Step-IsCoupled {s = s} r (work (submit i {ws} h alive free note)) c =
    submit-IsCoupled s.counter.jobs s.pool i ws c h
Step-IsCoupled {s = s} r (work (run i w h g)) c =
    let (given, over, begun) = c i submitted h in
    set-IsCoupled s.counter.jobs s.pool i ran c (given, over, in_hand-started i w r g)
Step-IsCoupled {s = s} r (work (uncount i w h g)) c =
    let (given, over, begun) = c i ran h in
    set-IsCoupled s.counter.jobs s.pool i finished c (given, omega arith, begun)
Step-IsCoupled {s = s} r (work (workers step o)) c =
    pool-IsCoupled s.counter.jobs r (inner step) o c
Step-IsCoupled {s = s} r (count_up i h) c =
    let (given, over, begun) = c i fresh h in
    set-IsCoupled s.counter.jobs s.pool i counted c (given, over, begun)
Step-IsCoupled r (wait step same_jobs e) c =
    λ j job held. c j job (sym (ap (λ js. get_elem? js j) same_jobs) ∙ held)
Step-IsCoupled {s = s} r (others step o) c = pool-IsCoupled s.counter.jobs r step o c

start-IsCoupled : (n m k : ℕ) → IsCoupled (start_of n m k).counter.jobs (start_of n m k).pool
start-IsCoupled n m k j job held =
    subst (Fits (start_of n m k).pool j) (sym (get_elem?-replicate m j fresh held))
      (refl, omega arith, omega arith)

pub Reach-IsCoupled : {n m k : ℕ} {s : Executor} → Reach n m k s → IsCoupled s.counter.jobs s.pool
Reach-IsCoupled {n} {m} {k} start = start-IsCoupled n m k
Reach-IsCoupled (later r step) = Step-IsCoupled (Reach-both r).0 step (Reach-IsCoupled r)

at_rest :
    (p : PoolSystem) (log : Log p) (i : ℕ) (job : Job)
    → Fits p i job
    → is_counted job ≡ 0
    → ((job ≡ fresh) × (count i p.submitted ≡ 0))
      ⊎ ((job ≡ finished) × (count i p.started ≡ 1) × (count i p.pool.queue ≡ 0))
at_rest p log i fresh (given, over, begun) none_left = inl (refl, given)
at_rest p log i finished (given, over, begun) none_left =
    let (all, hand) = tally log i in inr (refl, omega arith, omega arith)
at_rest p log i _ fits none_left = absurd (omega arith)

-- `waitForCompletion` of the executor on its pool: for fewer than 2 ^ 31 jobs, in every reachable state in which
-- the predicate of its wait holds, each of its jobs has either not been counted yet, and has not been given
-- to the pool, or has counted itself down, has been taken from the queue exactly once, and is not in the
-- queue; and no thread sleeps in `waitForCompletion`.
pub executor_lem :
    {n m k : ℕ} {s : Executor}
    → m < 2 ^ 31
    → Reach n m k s
    → JobCounter.is_complete s.counter.num_jobs ≡ true
    → ((i : ℕ) (job : Job)
        → get_elem? s.counter.jobs i ≡ some job
        → ((job ≡ fresh) × (count i s.pool.submitted ≡ 0))
          ⊎ ((job ≡ finished) × (count i s.pool.started ≡ 1) × (count i s.pool.pool.queue ≡ 0)))
      × (weigh JobCounter.is_sleeping s.counter.waiters ≡ 0)
executor_lem {s = s} few r complete =
    let (p, c) = Reach-both r in
    let (only_if, if_none, nobody, passes) = counter_lem few c in
    (
      λ i job held.
          at_rest s.pool (Reach-Log p) i job (Reach-IsCoupled r i job held)
            (omega (arith, only_if complete, le-weigh is_counted s.counter.jobs i held)),
      nobody complete,
    )
