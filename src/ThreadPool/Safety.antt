-- ===== src/ThreadPool/Safety.antt =====
-- What the owner of a pool relies on.
use fbutils.Prelude.{
  ℕ, ◌+◌, ◌≤◌, ◌<◌, ◌^◌, ◌≡◌, ◌≢◌, ◌⊎◌, inl, inr, refl, sym, ◌∙◌, ap, true, false, none, some, List,
  [], ◌∷◌, ◌++◌, arith, weigh, weigh_pos, le-weigh, get_elem?, length, Option-cases, Bool-cases,
}
use mathlib.Core.List.{append-nil}
use fbutils.ThreadPool
use fbutils.ThreadPool.{Pool, is_empty, positive}
use fbutils.ThreadPool.System.{
  Pc, head, at_lock, tested, asleep, passed, running, finishing, exited, System, is_asleep,
  is_exited, enter, pass, test, sleep, take, end_job, finish, Inner, work, Reach,
}
use fbutils.ThreadPool.Counts.{is_busy, is_tested, is_passed, runs, count}
use fbutils.ThreadPool.Invariant.{Consistent, Reach-Consistent}
use fbutils.ThreadPool.Jobs.{Log, Reach-Log}

pub runs_le : (j : ℕ) (ws : List Pc) → weigh (runs j) ws ≤ weigh is_busy ws
runs_le j [] = omega arith
runs_le j (running none ∷ ws) = omega (arith, runs_le j ws)
runs_le j (running (some k) ∷ ws) = ground (arith, runs_le j ws)
runs_le j (pc ∷ ws) = omega (arith, runs_le j ws)

is_empty→nil : (js : List ℕ) → is_empty js ≡ true → js ≡ []
is_empty→nil [] e = refl
is_empty→nil (j ∷ js) e = cc

-- `waitForCompletion` returns only when the work is done: for a pool of 1 to 2 ^ 31 - 1 workers, in
-- every reachable state in which the test of its loop fails under the mutex, no job is queued, no
-- worker is busy, and each job has run to its end as often as it has been added.
pub completion :
    {n : ℕ} {s : System}
    → 0 < n
    → n < 2 ^ 31
    → Reach n s
    → s.pool.locked ≡ false
    → ThreadPool.must_wait s.pool ≡ false
    → (s.pool.queue ≡ [])
      × (weigh is_busy s.workers ≡ 0)
      × ((j : ℕ) → count j s.done ≡ count j s.submitted)
unfolding ThreadPool.must_wait
completion {s} pos few r free stop = (
  empty,
  idle,
  λ j. omega (arith, log.in_hand j, runs_le j s.workers, idle, ap (count j) all_started),
)
  where
    inv : Consistent s.pool s.workers s.owner
    inv = Reach-Consistent pos few r

    log : Log s
    log = Reach-Log r

    empty : s.pool.queue ≡ []
    empty = is_empty→nil s.pool.queue (ground arith)

    idle : weigh is_busy s.workers ≡ 0
    idle = ground (arith, inv.busy, inv.room, inv.few)

    all_started : s.started ≡ s.submitted
    all_started = sym (append-nil s.started) ∙ ap (λ q. s.started ++ q) (sym empty) ∙ log.in_order

pub take_total :
    (p : Pool) (queue : List ℕ)
    → p.queue ≡ queue
    → (p.terminate ≡ true) ⊎ (is_empty p.queue ≡ false)
    → ThreadPool.take_job p ≢ none
unfolding ThreadPool.take_job
take_total p [] q h e = ground arith
take_total p (j ∷ js) q h e = ground arith

-- No assertion of the pool fails: for 1 to 2 ^ 31 - 1 workers, in every reachable state, a worker that
-- goes on from its wait finds a job or the end of the pool; and once all workers have ended, none is
-- counted as busy, which the destructor asserts.
pub pool_asserts_pass :
    {n : ℕ} {s : System}
    → 0 < n
    → n < 2 ^ 31
    → Reach n s
    → ((i : ℕ) → get_elem? s.workers i ≡ some passed → ThreadPool.take_job s.pool ≢ none)
      × (weigh is_exited s.workers ≡ length s.workers → s.pool.busy ≡ 0)
pool_asserts_pass {s} pos few r = (
  λ i h.
      take_total s.pool s.pool.queue refl
        (ground (arith, inv.may_go_on, le-weigh is_passed s.workers i h)),
  λ h. ground (arith, inv.busy, inv.room),
)
  where
    inv : Consistent s.pool s.workers s.owner
    inv = Reach-Consistent pos few r

is_awake : Pc → ℕ
is_awake asleep = 0
is_awake _ = 1

weigh-is_awake : (ws : List Pc) → weigh is_awake ws + weigh is_asleep ws ≡ length ws
unfolding is_awake
weigh-is_awake [] = refl
weigh-is_awake (pc ∷ ws) = ground (arith, weigh-is_awake ws)

weigh-add :
    (ws : List Pc)
    → weigh (λ pc. is_tested pc + is_passed pc) ws ≡ weigh is_tested ws + weigh is_passed ws
weigh-add [] = refl
weigh-add (pc ∷ ws) = omega (arith, weigh-add ws)

module _ {s : System} (inv : Consistent s.pool s.workers s.owner)
    (go_on : s.pool.terminate ≡ false) where
  -- a worker that holds the mutex
  holder_moves :
      (i : ℕ) (pc : Pc)
      → get_elem? s.workers i ≡ some pc
      → 0 < is_tested pc + is_passed pc
      → (t : System) × Inner s t
  holder_moves i tested h k = (_, work i h sleep)
  holder_moves i passed h k = elim (Option-cases (ThreadPool.take_job s.pool)) [
    | inl e ↦ absurd (
        take_total s.pool s.pool.queue refl
          (ground (arith, inv.may_go_on, le-weigh is_passed s.workers i h)) e)
    | inr (r, e) ↦ (_, work i h (take e))
  ]
  holder_moves i _ h k = absurd (omega arith)

  -- a worker that does not sleep, while nobody holds the mutex
  awake_moves :
      (i : ℕ) (pc : Pc)
      → get_elem? s.workers i ≡ some pc
      → s.pool.locked ≡ false
      → 0 < is_awake pc
      → (t : System) × Inner s t
  unfolding is_awake
  awake_moves i head h free k = (_, work i h (enter go_on))
  awake_moves i at_lock h free k = elim (Bool-cases (ThreadPool.may_grab s.pool)) [
    | inl e ↦ (_, work i h (pass free e))
    | inr e ↦ (_, work i h (test free e))
  ]
  awake_moves i tested h free k = (_, work i h sleep)
  awake_moves i asleep h free k = absurd (omega arith)
  awake_moves i passed h free k = holder_moves i passed h (omega arith)
  awake_moves i (running job) h free k = (_, work i h end_job)
  awake_moves i finishing h free k = (_, work i h (finish free))
  awake_moves i exited h free k =
      absurd (ground (arith, inv.none_exited, le-weigh is_exited s.workers i h))

  pub locked_moves : s.pool.locked ≡ true → (t : System) × Inner s t
  locked_moves e =
      let (i, pc, h, k) =
        weigh_pos (λ pc. is_tested pc + is_passed pc) s.workers
          (ground (arith, inv.mutex, weigh-add s.workers)) in
      holder_moves i pc h k

  free_moves : ThreadPool.must_wait s.pool ≡ true → s.pool.locked ≡ false → (t : System) × Inner s t
  unfolding ThreadPool.must_wait
  free_moves todo free =
      let (i, pc, h, k) = weigh_pos is_awake s.workers (
        ground (
          arith,
          weigh-is_awake s.workers,
          inv.some_awake,
          inv.busy,
          inv.room,
          inv.some_workers,
        )) in
      awake_moves i pc h free k

-- No deadlock while a pool is in use: for 1 to 2 ^ 31 - 1 workers, in every reachable state in which
-- `mTerminate` is not set and the test of `waitForCompletion` holds, some worker can make a step.
pub workers_go_on :
    {n : ℕ} {s : System}
    → 0 < n
    → n < 2 ^ 31
    → Reach n s
    → s.pool.terminate ≡ false
    → ThreadPool.must_wait s.pool ≡ true
    → (t : System) × Inner s t
workers_go_on {s} pos few r go_on todo = elim (Bool-cases s.pool.locked) [
  | inl e ↦ locked_moves {s = s} (Reach-Consistent pos few r) go_on e
  | inr e ↦ free_moves {s = s} (Reach-Consistent pos few r) go_on todo e
]
