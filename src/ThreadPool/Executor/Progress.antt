-- ===== src/ThreadPool/Executor/Progress.antt =====
-- That the jobs of an executor go on.
use mathlib.Core.Path.{subst}
use fbutils.Prelude.{
  ℕ, ◌≤◌, ◌<◌, ◌^◌, ◌≡◌, ◌≢◌, ◌⊎◌, inl, inr, refl, sym, ◌∙◌, ap, true, false, some, none, List, [],
  ◌∷◌, ◌++◌, arith, weigh, weigh_pos, get_elem?, Bool-cases, Option-cases, ℕ_discrete,
}
use fbutils.ThreadPool
use fbutils.ThreadPool.{is_empty}
use fbutils.ThreadPool.System.{
  Pc, asleep, running, Owner, destroyed, System as PoolSystem, is_asleep, Move, leave, enter, pass,
  test, sleep, take, end_job, finish, NotifyOne, nobody, somebody, Inner, notify_all, joined,
  Reach as PoolReach, log,
}
use fbutils.ThreadPool.System
use fbutils.ThreadPool.Counts.{count, runs, same}
use fbutils.ThreadPool.Invariant.{Consistent, Reach-Consistent, in_destructor}
use fbutils.ThreadPool.Jobs.{Log, Reach-Log}
use fbutils.ThreadPool.Safety.{workers_go_on, locked_moves}
use fbutils.ThreadPool.JobCounter
use fbutils.ThreadPool.JobCounter.{
  Job, fresh, counted, submitted, ran, finished, is_counted, counter_lem,
}
use fbutils.ThreadPool.Executor.{Executor, IsOthers, Work, submit, run, uncount, workers, Reach}
use fbutils.ThreadPool.Executor.Coupling.{
  count-other, in_hand-started, Reach-both, handed, tally, Reach-IsCoupled,
}

runs_pos : (j : ℕ) (pc : Pc) → 0 < runs j pc → pc ≡ running (some j)
runs_pos j (running (some k)) h = ap (λ i. running (some i)) (sym (same_pos j k h))
  where
    same_pos : (j k : ℕ) → 0 < same j k → j ≡ k
    same_pos j k h = ground arith
runs_pos j _ h = absurd (omega arith)

-- A worker has the job in its hand.
in_hand :
    {p : PoolSystem}
    → Log p
    → (i : ℕ) → count i p.done ≤ 0
    → 0 < count i p.started
    → (w : ℕ) × (get_elem? p.workers w ≡ some (running (some i)))
in_hand {p} log i over begun =
    let (w, pc, h, k) = weigh_pos (runs i) p.workers (omega (arith, (tally log i).1)) in
    (w, h ∙ ap some (runs_pos i pc k))

notify_someone : (ws : List Pc) → (ws' : List Pc) × NotifyOne ws ws'
notify_someone ws = elim (ℕ_discrete (weigh is_asleep ws) 0) [
  | yes e ↦ (ws, nobody e)
  | no ne ↦
      let (i, pc, h, k) = weigh_pos is_asleep ws (omega arith) in
      (_, somebody i (h ∙ ap some (sleeps pc k)))
]
  where
    sleeps : (pc : Pc) → 0 < is_asleep pc → pc ≡ asleep
    sleeps asleep h = refl
    sleeps _ h = absurd (omega arith)

-- A step that ends no job is one that the executor's jobs do not mind.
quiet :
    (jobs : List Job) (s t : PoolSystem)
    → t.submitted ≡ s.submitted
    → t.done ≡ s.done
    → IsOthers jobs s t
quiet jobs s t a b j = (inl (ap (count j) a), inl (ap (count j) b))

-- A step of the pool adds no job, and ends none or one that a worker has in its hand.
what_changes :
    {s t : PoolSystem}
    → Inner s t
    → (t.submitted ≡ s.submitted)
      × ((t.done ≡ s.done)
          ⊎ ((j w : ℕ) × (t.done ≡ s.done ++ j ∷ [])
              × (get_elem? s.workers w ≡ some (running (some j)))))
what_changes (System.work w h (end_job {job = some j})) = (refl, inr (j, w, refl, h))
what_changes (System.work w h (end_job {job = none})) = (refl, inl refl)
what_changes (System.work w h (leave e)) = (refl, inl refl)
what_changes (System.work w h (enter e)) = (refl, inl refl)
what_changes (System.work w h (pass e g)) = (refl, inl refl)
what_changes (System.work w h (test e g)) = (refl, inl refl)
what_changes (System.work w h sleep) = (refl, inl refl)
what_changes (System.work w h (take e)) = (refl, inl refl)
what_changes (System.work w h (finish e)) = (refl, inl refl)
what_changes (notify_all e) = (refl, inl refl)
what_changes (joined e all) = (refl, inl refl)

is_queued : (j : ℕ) (js : List ℕ) → 0 < count j js → is_empty js ≡ false
is_queued j [] h = absurd (omega arith)
is_queued j (k ∷ js) h = refl

finished_or : (job : Job) → (job ≡ finished) ⊎ (job ≢ finished)
finished_or job = ground arith

-- A worker that ends the job `j`, which is finished or not the executor's
ends :
    (jobs : List Job) (s t : PoolSystem) (j : ℕ)
    → t.submitted ≡ s.submitted
    → t.done ≡ s.done ++ j ∷ []
    → (get_elem? jobs j ≡ none) ⊎ (get_elem? jobs j ≡ some finished)
    → IsOthers jobs s t
ends jobs s t j a b over i = elim (ℕ_discrete j i) [
  | yes e ↦ (
    inl (ap (count i) a),
    inr (subst (λ x. (get_elem? jobs x ≡ none) ⊎ (get_elem? jobs x ≡ some finished)) e over),
  )
  | no ne ↦ (inl (ap (count i) a), inl (ap (count i) b ∙ count-other i j ne s.done))
]

module _ {n m k : ℕ} {s : Executor} (r : Reach n m k s) where
  not_given :
      (i w : ℕ) (job : Job)
      → get_elem? s.counter.jobs i ≡ some job
      → handed job ≡ 0
      → get_elem? s.pool.workers w ≢ some (running (some i))
  not_given i w job held none_given g =
      let (p, c) = Reach-both r in
      let (given, over, begun) = Reach-IsCoupled r i job held in
      omega (arith, in_hand-started i w p g, (tally (Reach-Log p) i).0, given)

  hand_on :
      (i w : ℕ) (job : Job)
      → get_elem? s.counter.jobs i ≡ some job
      → get_elem? s.pool.workers w ≡ some (running (some i))
      → job ≢ finished
      → (t : Executor) × Work s t
  hand_on i w submitted held g ne = (_, run i w held g)
  hand_on i w ran held g ne = (_, uncount i w held g)
  hand_on i w finished held g ne = absurd (ne refl)
  hand_on i w fresh held g ne = absurd (not_given i w fresh held refl g)
  hand_on i w counted held g ne = absurd (not_given i w counted held refl g)

  -- Where the pool can make a step, the executor can.
  pool_goes_on : {t : PoolSystem} → Inner s.pool t → (u : Executor) × Work s u
  pool_goes_on {t} step =
      let jobs = s.counter.jobs in
      let (a, ended) = what_changes step in
      elim ended [
        | inl b ↦ (_, workers step (quiet jobs s.pool t a b))
        | inr (j, w, b, h) ↦ elim (Option-cases (get_elem? jobs j)) [
          | inl e ↦ (_, workers step (ends jobs s.pool t j a b (inl e)))
          | inr (job, e) ↦ elim (finished_or job) [
            | inl q ↦ (_, workers step (ends jobs s.pool t j a b (inr (e ∙ ap some q))))
            | inr ne ↦ hand_on j w job e h ne
          ]
        ]
      ]

  job_goes_on :
      0 < n
      → n < 2 ^ 31
      → s.pool.pool.terminate ≡ false
      → (i : ℕ) (job : Job) → get_elem? s.counter.jobs i ≡ some job
      → 0 < is_counted job
      → (u : Executor) × Work s u
  unfolding ThreadPool.must_wait
  job_goes_on pos few go_on i counted held k =
      let (p, c) = Reach-both r in
      let inv : Consistent s.pool.pool s.pool.workers s.pool.owner = Reach-Consistent pos few p in
      elim (Bool-cases s.pool.pool.locked) [
        | inl e ↦ let (t, step) = locked_moves {s = s.pool} inv go_on e in pool_goes_on step
        | inr free ↦
            let (ws, note) = notify_someone s.pool.workers in
            (_, submit i held (λ e. ground (arith, inv.terminates, ap in_destructor e)) free note)
      ]
  job_goes_on pos few go_on i submitted held k =
      let (p, c) = Reach-both r in
      let logged = Reach-Log p in
      let (given, over, begun) = Reach-IsCoupled r i submitted held in
      elim (ℕ_discrete (count i s.pool.started) 0) [
        | yes e ↦
            let waits : is_empty s.pool.pool.queue ≡ false =
              is_queued i s.pool.pool.queue (omega (arith, (tally logged i).0)) in
            let queued : ThreadPool.must_wait s.pool.pool ≡ true = rw waits refl in
            let (t, step) = workers_go_on pos few p go_on queued in pool_goes_on step
        | no ne ↦ let (w, g) = in_hand logged i over (omega arith) in (_, run i w held g)
      ]
  job_goes_on pos few go_on i ran held k =
      let (p, c) = Reach-both r in
      let (given, over, begun) = Reach-IsCoupled r i ran held in
      let (w, g) = in_hand (Reach-Log p) i over begun in (_, uncount i w held g)
  job_goes_on pos few go_on i _ held k = absurd (omega arith)

-- The executor is never stuck with a job that is counted: for a pool of 1 to 2 ^ 31 - 1 workers that is not
-- being destroyed and fewer than 2 ^ 31 jobs, in every reachable state in which the predicate of
-- `waitForCompletion` does not hold, the thread that adds a job can hand it over, or a worker can make a step.
pub executor_goes_on :
    {n m k : ℕ} {s : Executor}
    → 0 < n
    → n < 2 ^ 31
    → m < 2 ^ 31
    → Reach n m k s
    → s.pool.pool.terminate ≡ false
    → JobCounter.is_complete s.counter.num_jobs ≡ false
    → (u : Executor) × Work s u
executor_goes_on {s = s} pos few few_jobs r go_on incomplete =
    let (p, c) = Reach-both r in
    let (only_if, if_none, nobody_sleeps, passes) = counter_lem few_jobs c in
    elim (ℕ_discrete (weigh is_counted s.counter.jobs) 0) [
      | yes e ↦ absurd (ground (arith, if_none e))
      | no ne ↦
          let (i, job, held, k) = weigh_pos is_counted s.counter.jobs (omega arith) in
          job_goes_on r pos few go_on i job held k
    ]
