-- ===== src/ThreadPool/Spec.antt =====
-- What the pool promises, with no threads in it: a queue of jobs, how often each job is in hand, and
-- whether the end has begun.
use fbutils.Prelude.{ℕ, ◌+◌, ◌≡◌, Bool, true, false, Option, none, some, List, [], ◌∷◌, ◌++◌, weigh}
use fbutils.ThreadPool
use fbutils.ThreadPool.System.{
  System, work, notify_all, joined, Step, inner, spurious, spurious_owner, add, call_wait,
  wait_blocks, wait_returns, destroy,
}
use fbutils.ThreadPool.Counts.{runs, same}

pub record Jobs : Type 0 where
  pub pending : List ℕ
  pub in_hand : ℕ → ℕ
  pub ending : Bool

-- What a caller, or a job, can tell of a step.
pub data Event : Type 0 where
  silent : Event
  added : (job : ℕ) → Event
  begun : (job : ℕ) → Event
  ended : (job : ℕ) → Event
  returned : Event  -- `waitForCompletion` returns
  closed : Event  -- the destructor begins

pub record AreSame (s t : Jobs) : Type 0 where
  pub pending : t.pending ≡ s.pending
  pub in_hand : (j : ℕ) → t.in_hand j ≡ s.in_hand j
  pub ending : t.ending ≡ s.ending

pub data Allowed (s t : Jobs) : Event → Type 0 where
  nothing : AreSame s t → Allowed s t silent
  -- at the end of the queue
  adds :
      (job : ℕ) → AreSame (record s { pending = s.pending ++ job ∷ [] }) t → Allowed s t (added job)
  -- from the front of the queue, before the end has begun
  begins :
      (job : ℕ)
      → s.ending ≡ false
      → s.pending ≡ job ∷ t.pending
      → ((j : ℕ) → t.in_hand j ≡ s.in_hand j + same j job)
      → t.ending ≡ false
      → Allowed s t (begun job)
  -- only what is in hand
  ends :
      (job : ℕ)
      → t.pending ≡ s.pending
      → ((j : ℕ) → s.in_hand j ≡ t.in_hand j + same j job)
      → t.ending ≡ s.ending
      → Allowed s t (ended job)
  -- with nothing queued and nothing in hand
  returns : s.pending ≡ [] → ((j : ℕ) → s.in_hand j ≡ 0) → AreSame s t → Allowed s t returned
  closes : AreSame (record s { ending = true }) t → Allowed s t closed

-- The jobs of a pool with threads.
abbrev pub view : System → Jobs
view s = record {
  pending = s.pool.queue;
  in_hand = λ j. weigh (runs j) s.workers;
  ending = s.pool.terminate;
}

abbrev pub moved : Option ℕ → Option ℕ → Event
moved (some job) e = begun job
moved none (some job) = ended job
moved none none = silent

abbrev pub event : {s t : System} → Step s t → Event
event (inner (work i {begun = b} {ended = e} h mv)) = moved b e
event (inner (notify_all e)) = silent
event (inner (joined e h)) = silent
event (spurious i h) = silent
event (spurious_owner e) = silent
event (add job alive free note) = added job
event (call_wait e) = silent
event (wait_blocks e free g) = silent
event (wait_returns e free g) = returned
event (destroy e) = closed
