-- ===== src/ThreadPool/Invariant.antt =====
-- What holds in every reachable state of a pool.
use fbutils.Prelude.{
  ℕ, ◌+◌, ◌≤◌, ◌<◌, ◌^◌, ◌≡◌, ◌⊎◌, refl, ◌∙◌, ap, Bool, true, false, Option, List, [], ◌∷◌, ◌++◌,
  arith, weigh, weigh-replicate, length, length-replicate,
}
use fbutils.ThreadPool
use fbutils.ThreadPool.{Pool, is_empty}
use fbutils.ThreadPool.System.{
  Pc, head, at_lock, Owner, waiting, terminating, joining, destroyed, System, is_asleep, is_exited,
  heard, Move, leave, enter, pass, test, sleep, take, end_job, finish, NotifyOne, nobody, somebody,
  Inner, work, notify_all, joined, Step, inner, spurious, spurious_owner, add, call_wait,
  wait_blocks, wait_returns, destroy, init, Reach, start, later,
}
use fbutils.ThreadPool.Counts.{is_busy, is_tested, is_passed, Moved, Moved-set, Roused-map}

abbrev pub to_ℕ : Bool → ℕ
to_ℕ true = 1
to_ℕ false = 0

abbrev pub in_destructor : Owner → Bool
in_destructor terminating = true
in_destructor joining = true
in_destructor destroyed = true
in_destructor _ = false

abbrev pub is_waiting : Owner → Bool
is_waiting waiting = true
is_waiting _ = false

abbrev pub is_destroyed : Owner → Bool
is_destroyed destroyed = true
is_destroyed _ = false

-- What the workers and the owner say about the fields.
pub record Consistent (p : Pool) (ws : List Pc) (o : Owner) : Type 0 where
  pub some_workers : 0 < length ws
  pub few : length ws < 2 ^ 31
  pub room :
      weigh is_busy ws
        + weigh is_tested ws
        + weigh is_passed ws
        + weigh is_asleep ws
        + weigh is_exited ws
      ≤ length ws
  pub busy : p.busy ≡ weigh is_busy ws
  pub mutex : to_ℕ p.locked ≡ weigh is_tested ws + weigh is_passed ws
  pub nothing_to_do : (weigh is_tested ws ≡ 0) ⊎ (is_empty p.queue ≡ true)
  pub may_go_on : (weigh is_passed ws ≡ 0) ⊎ (p.terminate ≡ true) ⊎ (is_empty p.queue ≡ false)
  pub some_awake : (is_empty p.queue ≡ true) ⊎ (weigh is_asleep ws < length ws)
  pub terminates : p.terminate ≡ in_destructor o
  pub none_exited : (p.terminate ≡ true) ⊎ (weigh is_exited ws ≡ 0)
  pub owner_waits : (is_waiting o ≡ false) ⊎ (is_empty p.queue ≡ false) ⊎ (0 < weigh is_busy ws)
  pub all_exited : (is_destroyed o ≡ false) ⊎ (weigh is_exited ws ≡ length ws)

module _ {p : Pool} {ws : List Pc} {o : Owner} (inv : Consistent p ws o) where
  move-Consistent :
      {p' : Pool} {pc pc' : Pc} {b e : Option ℕ} {ws' : List Pc}
      → Move p pc p' pc' b e
      → Moved ws ws' pc pc'
      → Consistent p' ws' (heard pc o)
  unfolding ThreadPool.may_grab ThreadPool.take_job ThreadPool.finish_job ThreadPool.must_wait
  move-Consistent (leave e) f = ground arith
  move-Consistent (enter e) f = ground arith
  move-Consistent (pass e g) f = ground arith
  move-Consistent (test e g) f = ground arith
  move-Consistent sleep f = ground arith
  move-Consistent (take e) f = ground arith
  move-Consistent end_job f = ground arith
  move-Consistent (finish e) f = ground arith

is_empty-append : (js : List ℕ) (j : ℕ) → is_empty (js ++ j ∷ []) ≡ false
is_empty-append [] j = refl
is_empty-append (k ∷ js) j = refl

abbrev SystemConsistent : System → Type 0
SystemConsistent s = Consistent s.pool s.workers s.owner

add-Consistent :
    (s : System) (job : ℕ) {ws : List Pc}
    → SystemConsistent s
    → s.pool.locked ≡ false
    → NotifyOne s.workers ws
    → Consistent (ThreadPool.add_job job s.pool) ws s.owner
unfolding ThreadPool.add_job
add-Consistent s job inv free (nobody z) = ground (arith, is_empty-append s.pool.queue job)
add-Consistent s job inv free (somebody i h) =
    let f = Moved-set s.workers i at_lock h in ground (arith, is_empty-append s.pool.queue job)

Inner-Consistent : {s t : System} → Inner s t → SystemConsistent s → SystemConsistent t
Inner-Consistent {s} (work i {pc' = pc'} h mv) inv =
    move-Consistent inv mv (Moved-set s.workers i pc' h)
Inner-Consistent {s} (notify_all e) inv =
    let f = Roused-map s.workers in
    let q : s.pool.terminate ≡ true = inv.terminates ∙ ap in_destructor e in ground arith
Inner-Consistent {s} (joined e h) inv =
    let q : s.pool.terminate ≡ true = inv.terminates ∙ ap in_destructor e in ground arith

Step-Consistent : {s t : System} → Step s t → SystemConsistent s → SystemConsistent t
unfolding ThreadPool.must_wait
Step-Consistent (inner st) inv = Inner-Consistent st inv
Step-Consistent {s} (spurious i h) inv = let f = Moved-set s.workers i at_lock h in ground arith
Step-Consistent (spurious_owner e) inv = ground arith
Step-Consistent {s} (add job alive free note) inv = add-Consistent s job inv free note
Step-Consistent (call_wait e) inv = ground arith
Step-Consistent (wait_blocks e free g) inv = ground arith
Step-Consistent (wait_returns e free g) inv = ground arith
Step-Consistent (destroy e) inv = ground arith

init-Consistent : (n : ℕ) → 0 < n → n < 2 ^ 31 → SystemConsistent (init n)
init-Consistent n pos few =
    let size = length-replicate n head in
    let no_busy = weigh-replicate is_busy n head refl in
    let no_tested = weigh-replicate is_tested n head refl in
    let no_passed = weigh-replicate is_passed n head refl in
    let no_asleep = weigh-replicate is_asleep n head refl in
    let no_exited = weigh-replicate is_exited n head refl in ground arith

pub Reach-Consistent :
    {n : ℕ} {s : System} → 0 < n → n < 2 ^ 31 → Reach n s → Consistent s.pool s.workers s.owner
Reach-Consistent {n} pos few start = init-Consistent n pos few
Reach-Consistent pos few (later r st) = Step-Consistent st (Reach-Consistent pos few r)
