-- ===== src/ThreadPool/Progress.antt =====
-- That the workers come to an end with the jobs that they have.
use fbutils.Prelude.{
  ℕ, suc, ◌+◌, ◌*◌, ◌≤◌, ◌<◌, ◌^◌, ◌≡◌, inl, inr, refl, ap, false, Option, some, List, [], ◌∷◌,
  arith, weigh, weigh-set, length, Bool-cases,
}
use fbutils.ThreadPool
use fbutils.ThreadPool.{Pool, is_empty}
use fbutils.ThreadPool.System.{
  Pc, head, at_lock, tested, asleep, passed, running, finishing, exited, System, Move, leave, enter,
  pass, test, sleep, take, end_job, finish, Inner, work, notify_all, joined, inner, Reach, later,
}
use fbutils.ThreadPool.Counts.{is_busy, count}
use fbutils.ThreadPool.Invariant.{Consistent, Reach-Consistent, in_destructor, is_waiting}
use fbutils.ThreadPool.Shutdown.{Runs, here, next}
use fbutils.ThreadPool.Safety.{completion, workers_go_on, locked_moves}

-- How far a worker is from its sleep, and a step past it a queued job is worth 5 of these.
abbrev pub steps_left : Pc → ℕ
steps_left (running job) = 6
steps_left finishing = 5
steps_left head = 4
steps_left at_lock = 3
steps_left tested = 2
steps_left passed = 2
steps_left asleep = 0
steps_left exited = 0

abbrev pub left : System → ℕ
left s = 5 * length s.pool.queue + weigh steps_left s.workers

take_length :
    (p : Pool) (queue : List ℕ) {job : Option ℕ} {p' : Pool}
    → p.queue ≡ queue
    → p.terminate ≡ false
    → ThreadPool.take_job p ≡ some (job, p')
    → (length p.queue ≡ suc (length p'.queue)) × (p'.terminate ≡ false)
unfolding ThreadPool.take_job
take_length p [] q go_on e = ground arith
take_length p (k ∷ ks) q go_on e = ground arith

move_less :
    {p p' : Pool} {pc pc' : Pc} {b e : Option ℕ}
    → p.terminate ≡ false
    → Move p pc p' pc' b e
    → (5 * length p'.queue + steps_left pc' < 5 * length p.queue + steps_left pc)
      × (p'.terminate ≡ false)
unfolding ThreadPool.finish_job
move_less go_on (leave e) = absurd cc
move_less go_on (enter e) = (omega arith, go_on)
move_less go_on (pass e g) = (omega arith, go_on)
move_less go_on (test e g) = (omega arith, go_on)
move_less go_on sleep = (omega arith, go_on)
move_less {p} go_on (take e) =
    let (fewer, on) = take_length p p.queue refl go_on e in (omega (arith, fewer), on)
move_less go_on end_job = (omega arith, go_on)
move_less go_on (finish e) = (omega arith, go_on)

pub Inner-less :
    {s t : System}
    → Consistent s.pool s.workers s.owner
    → s.pool.terminate ≡ false
    → Inner s t
    → (left t < left s) × (t.pool.terminate ≡ false)
Inner-less {s} inv go_on (work i {pc' = pc'} h mv) =
    let (less, on) = move_less go_on mv in
    (omega (arith, less, weigh-set steps_left s.workers i pc' h), on)
Inner-less inv go_on (notify_all e) = absurd (ground (arith, inv.terminates, ap in_destructor e))
Inner-less inv go_on (joined e h) = absurd (ground (arith, inv.terminates, ap in_destructor e))

abbrev pub steps : {s t : System} → Runs s t → ℕ
steps here = 0
steps (next run step) = suc (steps run)

run-Reach :
    {n : ℕ} {s t : System}
    → 0 < n
    → n < 2 ^ 31
    → Reach n s
    → s.pool.terminate ≡ false
    → (run : Runs s t) → Reach n t × (t.pool.terminate ≡ false) × (steps run + left t ≤ left s)
run-Reach pos few r go_on here = (r, go_on, omega arith)
run-Reach pos few r go_on (next run step) =
    let (before, on, bound) = run-Reach pos few r go_on run in
    let (less, still_on) = Inner-less (Reach-Consistent pos few before) on step in
    (later before (inner step), still_on, omega arith)

-- Every job that is added is done, if jobs return: for 1 to 2 ^ 31 - 1 workers, from every reachable state in
-- which `mTerminate` is not set, the workers make at most `left s` steps, in whatever order, while no
-- method is called and no wait ends without a signal; and where they can make no more, the queue is empty,
-- no worker is busy, each job has run to its end as often as it has been added, and the owner does not
-- sleep in `waitForCompletion`.
pub work_ends :
    {n : ℕ} {s t : System}
    → 0 < n
    → n < 2 ^ 31
    → Reach n s
    → s.pool.terminate ≡ false
    → (run : Runs s t)
    → (steps run ≤ left s)
      × (((u : System) → ¬ Inner t u)
          → (t.pool.queue ≡ [])
            × (weigh is_busy t.workers ≡ 0)
            × ((j : ℕ) → count j t.done ≡ count j t.submitted)
            × (is_waiting t.owner ≡ false))
unfolding ThreadPool.must_wait
work_ends {n} {s} {t} pos few r go_on run =
    let (reached, on, bound) = run-Reach pos few r go_on run in
    let inv : Consistent t.pool t.workers t.owner = Reach-Consistent pos few reached in
    (
      omega arith,
      λ rests.
          let free : t.pool.locked ≡ false = elim (Bool-cases t.pool.locked) [
            | inl e ↦ let (u, step) = locked_moves {s = t} inv on e in absurd (rests u step)
            | inr e ↦ e
          ] in
          let stop : ThreadPool.must_wait t.pool ≡ false =
            elim (Bool-cases (ThreadPool.must_wait t.pool)) [
              | inl e ↦ let (u, step) = workers_go_on pos few reached on e in absurd (rests u step)
              | inr e ↦ e
            ] in
          let (empty, idle, all_done) = completion pos few reached free stop in
          (empty, idle, all_done, ground (arith, inv.owner_waits, stop, ap is_empty empty)),
    )
