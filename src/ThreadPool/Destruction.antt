-- ===== src/ThreadPool/Destruction.antt =====
-- That the destructor returns, where no worker was about to sleep.
use fbutils.Prelude.{
  ℕ, ◌+◌, ◌≤◌, ◌<◌, ◌^◌, ◌≡◌, ◌⊎◌, inl, inr, refl, ◌∙◌, ap, true, false, Option, some, List, [],
  ◌∷◌, arith, weigh, weigh-set, weigh_pos, le-weigh, get_elem?, length, Bool-cases, Option-cases,
  ℕ_discrete,
}
use fbutils.ThreadPool
use fbutils.ThreadPool.{Pool}
use fbutils.ThreadPool.System.{
  Pc, head, at_lock, tested, asleep, passed, running, finishing, exited, Owner, joining, destroyed,
  System, is_exited, heard, Move, leave, enter, pass, test, sleep, take, end_job, finish, Inner,
  work, notify_all, joined, inner, Reach, later,
}
use fbutils.ThreadPool.Counts.{is_tested, is_passed}
use fbutils.ThreadPool.Invariant.{Consistent, Reach-Consistent, in_destructor, is_destroyed}
use fbutils.ThreadPool.Shutdown.{Runs, here, next}
use fbutils.ThreadPool.Safety.{take_total}
use fbutils.ThreadPool.Progress.{steps}

abbrev pub ends_in : Pc → ℕ
ends_in at_lock = 7
ends_in passed = 6
ends_in (running job) = 5
ends_in finishing = 4
ends_in head = 3
ends_in tested = 0
ends_in asleep = 0
ends_in exited = 0

abbrev pub to_join : Owner → ℕ
to_join joining = 1
to_join _ = 0

-- How many steps are left at most
abbrev pub until_end : System → ℕ
until_end s = weigh ends_in s.workers + to_join s.owner

abbrev pub may_sleep : Pc → ℕ
may_sleep tested = 1
may_sleep asleep = 1
may_sleep _ = 0

record Ending (s : System) : Type 0 where
  ends : s.pool.terminate ≡ true
  awake : weigh may_sleep s.workers ≡ 0
  at_join : (s.owner ≡ joining) ⊎ (s.owner ≡ destroyed)

take_ends :
    (p : Pool)
    → p.terminate ≡ true
    → (job : Option ℕ) (p' : Pool) → ThreadPool.take_job p ≡ some (job, p')
    → p'.terminate ≡ true
unfolding ThreadPool.take_job
take_ends p e job p' h = ground arith

move_ends :
    {p p' : Pool} {pc pc' : Pc} {b e : Option ℕ}
    → p.terminate ≡ true
    → may_sleep pc ≡ 0
    → Move p pc p' pc' b e
    → (p'.terminate ≡ true) × (may_sleep pc' ≡ 0) × (ends_in pc' < ends_in pc)
unfolding ThreadPool.may_grab ThreadPool.finish_job
move_ends ends awake (leave e) = (ends, refl, omega arith)
move_ends ends awake (enter e) = absurd cc
move_ends ends awake (pass e g) = (ends, refl, omega arith)
move_ends ends awake (test e g) = absurd (ground arith)
move_ends ends awake sleep = absurd (omega arith)
move_ends {p} ends awake (take {job} {p'} e) = (take_ends p ends job p' e, refl, omega arith)
move_ends ends awake end_job = (ends, refl, omega arith)
move_ends ends awake (finish e) = (ends, refl, omega arith)

heard_ends : (pc : Pc) (o : Owner) → (o ≡ joining) ⊎ (o ≡ destroyed) → heard pc o ≡ o
heard_ends pc o h = ground arith

Inner-Ending : {s t : System} → Ending s → Inner s t → Ending t × (until_end t < until_end s)
Inner-Ending {s} e (work i {pc = pc} {pc' = pc'} h mv) =
    let same = heard_ends pc s.owner e.at_join in
    let (ends, awake, less) =
      move_ends e.ends (omega (arith, e.awake, le-weigh may_sleep s.workers i h)) mv in
    (
      record {
        ends = ends;
        awake = omega (arith, e.awake, awake, weigh-set may_sleep s.workers i pc' h);
        at_join = rw same e.at_join;
      },
      rw same (omega (arith, less, weigh-set ends_in s.workers i pc' h)),
    )
Inner-Ending e (notify_all q) = absurd (ground (arith, e.at_join))
Inner-Ending e (joined q all) =
    (record { ends = e.ends; awake = e.awake; at_join = inr refl }, rw q (omega arith))

run-Ending :
    {n : ℕ} {s t : System}
    → Reach n s
    → Ending s
    → (run : Runs s t) → Reach n t × Ending t × (steps run + until_end t ≤ until_end s)
run-Ending r e here = (r, e, omega arith)
run-Ending r e (next run step) =
    let (before, ending, bound) = run-Ending r e run in
    let (still, less) = Inner-Ending ending step in (later before (inner step), still, omega arith)

weigh_tested-le : (ws : List Pc) → weigh is_tested ws ≤ weigh may_sleep ws
weigh_tested-le [] = omega arith
weigh_tested-le (pc ∷ ws) = ground (arith, weigh_tested-le ws)

has_left : Pc → ℕ
has_left exited = 0
has_left _ = 1

weigh-has_left : (ws : List Pc) → weigh has_left ws + weigh is_exited ws ≡ length ws
unfolding has_left
weigh-has_left [] = refl
weigh-has_left (pc ∷ ws) = ground (arith, weigh-has_left ws)

module _ {s : System} (e : Ending s) (inv : Consistent s.pool s.workers s.owner) where
  not_asleep : (i : ℕ) (pc : Pc) → get_elem? s.workers i ≡ some pc → may_sleep pc ≡ 0
  not_asleep i pc h = omega (arith, e.awake, le-weigh may_sleep s.workers i h)

  passed_moves : (i : ℕ) → get_elem? s.workers i ≡ some passed → (t : System) × Inner s t
  passed_moves i h = elim (Option-cases (ThreadPool.take_job s.pool)) [
    | inl q ↦ absurd (take_total s.pool s.pool.queue refl (inl e.ends) q)
    | inr (r, q) ↦ (_, work i h (take q))
  ]

  worker_moves :
      (i : ℕ) (pc : Pc)
      → get_elem? s.workers i ≡ some pc
      → s.pool.locked ≡ false
      → 0 < has_left pc
      → (t : System) × Inner s t
  unfolding has_left ThreadPool.may_grab
  worker_moves i head h free k = (_, work i h (leave e.ends))
  worker_moves i at_lock h free k = (_, work i h (pass free (ground (arith, e.ends))))
  worker_moves i tested h free k = absurd (omega (arith, not_asleep i tested h))
  worker_moves i asleep h free k = absurd (omega (arith, not_asleep i asleep h))
  worker_moves i passed h free k = passed_moves i h
  worker_moves i (running job) h free k = (_, work i h end_job)
  worker_moves i finishing h free k = (_, work i h (finish free))
  worker_moves i exited h free k = absurd (omega arith)

  holder_moves :
      (i : ℕ) (pc : Pc)
      → get_elem? s.workers i ≡ some pc
      → 0 < is_passed pc
      → (t : System) × Inner s t
  holder_moves i passed h k = passed_moves i h
  holder_moves i _ h k = absurd (omega arith)

  locked_moves : s.pool.locked ≡ true → (t : System) × Inner s t
  locked_moves q =
      let (i, pc, h, k) =
        weigh_pos is_passed s.workers
          (ground (arith, inv.mutex, weigh_tested-le s.workers, e.awake)) in
      holder_moves i pc h k

  free_moves : s.pool.locked ≡ false → (s.owner ≡ destroyed) ⊎ ((t : System) × Inner s t)
  free_moves free = elim (ℕ_discrete (weigh is_exited s.workers) (length s.workers)) [
    | yes all ↦ elim e.at_join [ inl q ↦ inr (_, joined q all) | inr q ↦ inl q ]
    | no some_left ↦
        let (i, pc, h, k) =
          weigh_pos has_left s.workers (omega (arith, some_left, weigh-has_left s.workers)) in
        inr (worker_moves i pc h free k)
  ]

  ending_moves : (s.owner ≡ destroyed) ⊎ ((t : System) × Inner s t)
  ending_moves = elim (Bool-cases s.pool.locked) [
    | inl q ↦ inr (locked_moves q)
    | inr q ↦ free_moves q
  ]

-- The destructor returns, if jobs return, unless a worker was about to sleep: for 1 to 2 ^ 31 - 1 workers, from
-- every reachable state in which it is in `join` and no worker sleeps or is between its test and its sleep,
-- the workers and the destructor make at most `until_end s` steps, in whatever order, while no method is
-- called; and where they can make no more, the destructor has returned and all workers have ended.
pub destructor_returns :
    {n : ℕ} {s t : System}
    → 0 < n
    → n < 2 ^ 31
    → Reach n s
    → s.owner ≡ joining
    → weigh may_sleep s.workers ≡ 0
    → (run : Runs s t)
    → (steps run ≤ until_end s)
      × (((u : System) → ¬ Inner t u)
          → (t.owner ≡ destroyed) × (weigh is_exited t.workers ≡ length t.workers))
destructor_returns {n} {s} {t} pos few r at_join awake run =
    let at_end : s.pool.terminate ≡ true =
      (Reach-Consistent pos few r).terminates ∙ ap in_destructor at_join in
    let (reached, ending, bound) =
      run-Ending r (record { ends = at_end; awake = awake; at_join = inl at_join }) run in
    let inv : Consistent t.pool t.workers t.owner = Reach-Consistent pos few reached in
    (
      omega arith,
      λ rests. elim (ending_moves {s = t} ending inv) [
        | inl q ↦ (q, ground (arith, inv.all_exited, ap is_destroyed q))
        | inr (u, step) ↦ absurd (rests u step)
      ],
    )
