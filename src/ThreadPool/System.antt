-- ===== src/ThreadPool/System.antt =====
-- A `ThreadPool` with its worker threads, the thread that owns it, and other threads that add jobs.
use fbutils.Prelude.{
  ℕ, ◌≡◌, ◌≢◌, true, false, Option, none, some, List, [], ◌∷◌, ◌++◌, map, length, weigh, get_elem?,
  set, replicate,
}
use fbutils.ThreadPool
use fbutils.ThreadPool.{Pool, new_pool}

-- Where a worker stands in `threadExecLoop` and `grabNextJob`.
pub data Pc : Type 0 where
  head : Pc  -- the test of `while (!mTerminate)`
  at_lock : Pc  -- about to lock the mutex and test the predicate, at first or after a wake-up
  tested : Pc  -- holds the mutex, has found the predicate false, and is about to sleep
  asleep : Pc  -- in `mJobAvailableCV.wait`
  passed : Pc  -- holds the mutex, and has found the predicate true
  running : (job : Option ℕ) → Pc  -- in `lJob()`
  finishing : Pc  -- about to lock the mutex and count itself out
  exited : Pc

-- Where the owner stands.
pub data Owner : Type 0 where
  outside : Owner
  checking : Owner  -- in `waitForCompletion`, about to lock the mutex and make its test
  waiting : Owner  -- in `mCompletionCV.wait`
  terminating : Owner  -- in the destructor, between the write of `mTerminate` and `notify_all`
  joining : Owner  -- in the destructor, after `notify_all`
  destroyed : Owner

pub record System : Type 0 where
  pub pool : Pool
  pub workers : List Pc
  pub owner : Owner
  -- what has happened so far: the jobs added, taken from the queue, and run to their end
  pub submitted : List ℕ
  pub started : List ℕ
  pub done : List ℕ

abbrev pub is_asleep : Pc → ℕ
is_asleep asleep = 1
is_asleep _ = 0

abbrev pub is_exited : Pc → ℕ
is_exited exited = 1
is_exited _ = 0

abbrev pub wake : Pc → Pc
wake asleep = at_lock
wake head = head
wake at_lock = at_lock
wake tested = tested
wake passed = passed
wake (running job) = running job
wake finishing = finishing
wake exited = exited

abbrev pub owner_woken : Owner → Owner
owner_woken waiting = checking
owner_woken outside = outside
owner_woken checking = checking
owner_woken terminating = terminating
owner_woken joining = joining
owner_woken destroyed = destroyed

abbrev pub log : Option ℕ → List ℕ → List ℕ
log none js = js
log (some j) js = js ++ j ∷ []

-- One step of one worker: the pool, where the worker stands, and what is added to `started` and `done`.
pub data Move (p : Pool) : Pc → Pool → Pc → Option ℕ → Option ℕ → Type 0 where
  leave : p.terminate ≡ true → Move p head p exited none none
  enter : p.terminate ≡ false → Move p head p at_lock none none
  pass :
      p.locked ≡ false
      → ThreadPool.may_grab p ≡ true
      → Move p at_lock (record p { locked = true }) passed none none
  test :
      p.locked ≡ false
      → ThreadPool.may_grab p ≡ false
      → Move p at_lock (record p { locked = true }) tested none none
  sleep : Move p tested (record p { locked = false }) asleep none none
  take :
      {job : Option ℕ} {p' : Pool}
      → ThreadPool.take_job p ≡ some (job, p')
      → Move p passed p' (running job) job none
  end_job : {job : Option ℕ} → Move p (running job) p finishing none job
  finish : p.locked ≡ false → Move p finishing (ThreadPool.finish_job p) head none none

-- Who hears `mCompletionCV.notify_all()`: the owner, if it waits.
abbrev pub heard : Pc → Owner → Owner
heard finishing o = owner_woken o
heard _ o = o

-- The signal of `addJob` wakes one sleeping worker, any one, and nobody where none sleeps.
pub data NotifyOne (ws : List Pc) : List Pc → Type 0 where
  nobody : weigh is_asleep ws ≡ 0 → NotifyOne ws ws
  somebody : (i : ℕ) → get_elem? ws i ≡ some asleep → NotifyOne ws (set ws i at_lock)

-- A step of a worker, or of the owner in the destructor: what goes on with no call from outside.
pub data Inner (s : System) : System → Type 0 where
  work :
      (i : ℕ) {p' : Pool} {pc pc' : Pc} {begun ended : Option ℕ}
      → get_elem? s.workers i ≡ some pc
      → Move s.pool pc p' pc' begun ended
      → Inner s (record {
        pool = p';
        workers = set s.workers i pc';
        owner = heard pc s.owner;
        submitted = s.submitted;
        started = log begun s.started;
        done = log ended s.done;
      })
  notify_all :
      s.owner ≡ terminating → Inner s (record s { workers = map wake s.workers; owner = joining })
  joined :
      s.owner ≡ joining
      → weigh is_exited s.workers ≡ length s.workers
      → Inner s (record s { owner = destroyed })

pub data Step (s : System) : System → Type 0 where
  inner : {t : System} → Inner s t → Step s t
  -- a wait that ends with no signal
  spurious :
      (i : ℕ)
      → get_elem? s.workers i ≡ some asleep
      → Step s (record s { workers = set s.workers i at_lock })
  spurious_owner : s.owner ≡ waiting → Step s (record s { owner = checking })
  -- calls of the methods
  add :
      (job : ℕ) {ws : List Pc}
      → s.owner ≢ destroyed
      → s.pool.locked ≡ false
      → NotifyOne s.workers ws
      → Step s (record s {
        pool = ThreadPool.add_job job s.pool;
        workers = ws;
        submitted = s.submitted ++ job ∷ [];
      })
  call_wait : s.owner ≡ outside → Step s (record s { owner = checking })
  wait_blocks :
      s.owner ≡ checking
      → s.pool.locked ≡ false
      → ThreadPool.must_wait s.pool ≡ true
      → Step s (record s { owner = waiting })
  wait_returns :
      s.owner ≡ checking
      → s.pool.locked ≡ false
      → ThreadPool.must_wait s.pool ≡ false
      → Step s (record s { owner = outside })
  destroy :
      s.owner ≡ outside
      → Step s (record s { pool = record s.pool { terminate = true }; owner = terminating })

abbrev pub init : ℕ → System
init n = record {
  pool = new_pool;
  workers = replicate n head;
  owner = outside;
  submitted = [];
  started = [];
  done = [];
}

pub data Reach (n : ℕ) : System → Type 0 where
  start : Reach n (init n)
  later : {s t : System} → Reach n s → Step s t → Reach n t
