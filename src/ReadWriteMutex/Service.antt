-- ===== src/ReadWriteMutex/Service.antt =====
-- What becomes of the uses of a `ReadWriteMutex` that wait, where each belongs to a thread.
use fbutils.Prelude.{
  ℕ, zero, suc, ◌⊎◌, ◌+◌, ◌≤◌, ◌<◌, ◌^◌, ◌≡◌, ◌≢◌, inl, inr, refl, sym, Bool, true, false, some,
  ℕ_discrete, get_elem?-set_self, get_elem?-set_ne, lt-length_of_get_elem?, List, [], ◌∷◌, map,
  arith, weigh, weigh-set, le-weigh, weigh_pos, length, length-replicate, get_elem?, set, dec_lt,
  ap, ◌∙◌, ◌==◌, if◌then◌else◌,
}
use mathlib.Core.Option.{some-injective}
use fbutils.ReadWriteMutex
use fbutils.ReadWriteMutex.{
  Monitor, Notice, nobody, one_writer, all_readers, Exit, returns, decrement,
}
use fbutils.ReadWriteMutex.System.{
  Pc, idle, reading, writing, read_blocked, write_blocked, write_asleep, is_reading, is_writing,
  wake_reader, Move, read_entry, read_wait, read_resume, read_again, try_read, try_read_fails,
  read_exit, write_entry, write_wait, write_resume, write_again, try_write, try_write_fails,
  write_exit, Delivered, to_nobody, none_asleep, to_writer, to_readers, System, Step,
  spurious_reader, spurious_writer, Reach, start, later,
}
use fbutils.ReadWriteMutex.Invariant.{Inv, Reach-Inv}
use fbutils.ReadWriteMutex.Counts.{Moved-set, Roused-map}
use fbutils.ReadWriteMutex.Progress.{CanResume, reader, writer, IsBlocked, no_deadlock}

abbrev pub blocked : Pc → Bool
blocked (read_blocked w) = true
blocked (write_blocked w) = true
blocked idle = false
blocked reading = false
blocked writing = false

-- The thread of use `i` is not in a wait of another use: a thread does one thing after the other.
abbrev pub IsFree : (ℕ → ℕ) → ℕ → List Pc → Type 0
IsFree thread i cs =
    (j : ℕ) (q : Pc) → get_elem? cs j ≡ some q → thread j ≡ thread i → j ≢ i → blocked q ≡ false

-- A step of a use that has called already: a wait that is over goes on, or the lock is let go of. `thread` is
-- the thread of each use.
pub data Served (thread : ℕ → ℕ) (s : System) : System → Type 0 where
  go :
      (i : ℕ) {p p' : Pc} {m' : Monitor} {n : Notice} {cs : List Pc}
      → get_elem? s.uses i ≡ some p
      → p ≢ idle
      → IsFree thread i s.uses
      → Move s.monitor p p' m' n
      → Delivered n (set s.uses i p') cs
      → Served thread s (record { monitor = m'; uses = cs })

-- No thread holds the lock, or waits for it a second time, while it waits for it.
abbrev pub IsUnnested : (ℕ → ℕ) → System → Type 0
IsUnnested thread s =
    (i : ℕ) (p : Pc) → get_elem? s.uses i ≡ some p → p ≢ idle → IsFree thread i s.uses

pub data Runs (thread : ℕ → ℕ) (s : System) : System → Type 0 where
  here : Runs thread s s
  next : {t u : System} → Runs thread s t → Served thread t u → Runs thread s u

abbrev pub steps : {thread : ℕ → ℕ} {s t : System} → Runs thread s t → ℕ
steps here = 0
steps (next run step) = suc (steps run)

-- How far a use is from being idle, among `n` of them: one that lets go may wake all the others.
abbrev pub rank : ℕ → Pc → ℕ
rank n idle = 0
rank n reading = n + 2
rank n writing = n + 2
rank n (read_blocked false) = n + 2 + (n + 2)
rank n (write_blocked false) = n + 2 + (n + 2)
rank n (read_blocked true) = suc (n + 2 + (n + 2))
rank n (write_blocked true) = suc (n + 2 + (n + 2))

abbrev pub demand : ℕ → System → ℕ
demand n s = weigh (rank n) s.uses

-- How many uses a signal wakes at most
abbrev reached : ℕ → Notice → ℕ
reached n nobody = 0
reached n one_writer = 1
reached n all_readers = n

reached-lt : (n : ℕ) (notice : Notice) → reached n notice < n + 2
reached-lt n nobody = omega arith
reached-lt n one_writer = omega arith
reached-lt n all_readers = omega arith

move_less :
    (n : ℕ) {m m' : Monitor} {p p' : Pc} {notice : Notice}
    → p ≢ idle
    → Move m p p' m' notice
    → rank n p' + reached n notice < rank n p
move_less n called (read_entry e) = absurd (called refl)
move_less n called (read_wait e) = absurd (called refl)
move_less n called (read_resume e) = omega arith
move_less n called (read_again e) = omega arith
move_less n called (try_read owns e) = absurd (called refl)
move_less n called (try_read_fails owns e) = absurd (called refl)
move_less n {notice = notice} called (read_exit e) = omega (arith, reached-lt n notice)
move_less n called (write_entry e) = absurd (called refl)
move_less n called (write_wait e) = absurd (called refl)
move_less n called (write_resume e) = omega arith
move_less n called (write_again e) = omega arith
move_less n called (try_write owns e) = absurd (called refl)
move_less n called (try_write_fails owns e) = absurd (called refl)
move_less n {notice = notice} called (write_exit e) = omega (arith, reached-lt n notice)

roused_rank :
    (n : ℕ) (cs : List Pc) → weigh (rank n) (map wake_reader cs) ≤ weigh (rank n) cs + length cs
roused_rank n [] = omega arith
roused_rank n (p ∷ cs) = omega (arith, roused_rank n cs, one n p)
  where
    one : (n : ℕ) (p : Pc) → rank n (wake_reader p) ≤ suc (rank n p)
    one n p = ground arith

wakes_few :
    (n : ℕ) {notice : Notice} {cs cs' : List Pc}
    → length cs ≡ n
    → Delivered notice cs cs'
    → (weigh (rank n) cs' ≤ weigh (rank n) cs + reached n notice) × (length cs' ≡ n)
wakes_few n size to_nobody = (omega arith, size)
wakes_few n size (none_asleep z) = (omega arith, size)
wakes_few n {cs = cs} size (to_writer j h) = (
  omega (arith, weigh-set (rank n) cs j (write_blocked true) h),
  (Moved-set cs j (write_blocked true) h).size ∙ size,
)
wakes_few n {cs = cs} size to_readers =
    (omega (arith, roused_rank n cs, size), (Roused-map cs).size ∙ size)

served_less :
    (n : ℕ) {thread : ℕ → ℕ} {s t : System}
    → length s.uses ≡ n
    → Served thread s t
    → (demand n t < demand n s) × (length t.uses ≡ n)
served_less n {s} size (go i {p' = p'} h called free mv d) =
    let (rise, size') = wakes_few n ((Moved-set s.uses i p' h).size ∙ size) d in
    (omega (arith, rise, move_less n called mv, weigh-set (rank n) s.uses i p' h), size')

Reach-size : {n : ℕ} {s : System} → Reach n s → length s.uses ≡ n
Reach-size {n} start = length-replicate n idle
Reach-size {n} (later {s} r (Step.move i {p' = p'} h mv d)) =
    (wakes_few n ((Moved-set s.uses i p' h).size ∙ Reach-size r) d).1
Reach-size (later {s} r (spurious_reader i h)) =
    (Moved-set s.uses i (read_blocked true) h).size ∙ Reach-size r
Reach-size (later {s} r (spurious_writer i h)) =
    (Moved-set s.uses i (write_blocked true) h).size ∙ Reach-size r

served_step : {thread : ℕ → ℕ} {s t : System} → Served thread s t → Step s t
served_step (go i h called free mv d) = Step.move i h mv d

run-Reach :
    {n : ℕ} {thread : ℕ → ℕ} {s t : System}
    → Reach n s
    → (run : Runs thread s t) → Reach n t × (steps run + demand n t ≤ demand n s)
run-Reach r here = (r, omega arith)
run-Reach {n} r (next run step) =
    let (before, bound) = run-Reach r run in
    let (less, size) = served_less n (Reach-size before) step in
    (later before (served_step step), omega arith)

sleeping_writer : (p : Pc) → 0 < write_asleep p → p ≡ write_blocked false
sleeping_writer p h = ground arith

-- A signal can always be delivered.
deliver : (notice : Notice) (cs : List Pc) → (cs' : List Pc) × Delivered notice cs cs'
deliver nobody cs = (cs, to_nobody)
deliver all_readers cs = (map wake_reader cs, to_readers)
deliver one_writer cs = elim (dec_lt 0 (weigh write_asleep cs)) [
  | yes some_sleep ↦
      let (j, p, e, sleeps) = weigh_pos write_asleep cs some_sleep in
      (set cs j (write_blocked true), to_writer j (e ∙ ap some (sleeping_writer p sleeps)))
  | no awake ↦ (cs, none_asleep (omega arith))
]

get_elem?-map :
    (cs : List Pc) (f : Pc → Pc) (j : ℕ) {q : Pc}
    → get_elem? (map f cs) j ≡ some q
    → (r : Pc) × (get_elem? cs j ≡ some r) × (q ≡ f r)
get_elem?-map [] f j h = cc
get_elem?-map (p ∷ cs) f zero h = (p, refl, sym (some-injective (f p) _ h))
get_elem?-map (p ∷ cs) f (suc j) h = get_elem?-map cs f j h

get_elem?-set :
    (cs : List Pc) (i : ℕ) (p : Pc) (j : ℕ) {q r : Pc}
    → get_elem? cs i ≡ some r
    → get_elem? (set cs i p) j ≡ some q
    → ((i ≡ j) × (q ≡ p)) ⊎ ((i ≢ j) × (get_elem? cs j ≡ some q))
get_elem?-set cs i p j held h = elim (ℕ_discrete i j) [
  | yes e ↦ inl (
    e,
    some-injective _ _ (
        sym h
        ∙ ap (get_elem? (set cs i p)) (sym e)
        ∙ get_elem?-set_self cs i p (lt-length_of_get_elem? cs i held)),
  )
  | no ne ↦ inr (ne, sym (get_elem?-set_ne cs p ne) ∙ h)
]

-- What a use was before a signal: a signal only ends waits.
before_signal :
    {notice : Notice} {cs cs' : List Pc} (j : ℕ) {q : Pc}
    → Delivered notice cs cs'
    → get_elem? cs' j ≡ some q
    → (r : Pc) × (get_elem? cs j ≡ some r) × (blocked r ≡ blocked q) × (r ≡ idle → q ≡ idle)
before_signal j {q} to_nobody h = (q, h, refl, λ e. e)
before_signal j {q} (none_asleep z) h = (q, h, refl, λ e. e)
before_signal j {q} (to_writer {cs} k held) h =
    elim (get_elem?-set cs k (write_blocked true) j held h) [
      | inl (e, turned) ↦ (
        write_blocked false,
        ap (get_elem? cs) (sym e) ∙ held,
        sym (ap blocked turned),
        λ f. absurd (ground arith),
      )
      | inr (ne, same) ↦ (q, same, refl, λ e. e)
    ]
before_signal j {q} (to_readers {cs}) h =
    let (r, held, e) = get_elem?-map cs wake_reader j h in
    (r, held, ground (arith, e), λ f. ground (arith, e))

-- A use that has called does not begin another wait.
move_waits :
    {m m' : Monitor} {p p' : Pc} {notice : Notice}
    → p ≢ idle
    → Move m p p' m' notice
    → blocked p ≡ false
    → blocked p' ≡ false
move_waits called (read_entry e) free = absurd (called refl)
move_waits called (read_wait e) free = absurd (called refl)
move_waits called (read_resume e) free = refl
move_waits called (read_again e) free = free
move_waits called (try_read owns e) free = absurd (called refl)
move_waits called (try_read_fails owns e) free = absurd (called refl)
move_waits called (read_exit e) free = refl
move_waits called (write_entry e) free = absurd (called refl)
move_waits called (write_wait e) free = absurd (called refl)
move_waits called (write_resume e) free = refl
move_waits called (write_again e) free = free
move_waits called (try_write owns e) free = absurd (called refl)
move_waits called (try_write_fails owns e) free = absurd (called refl)
move_waits called (write_exit e) free = refl

Served-IsUnnested :
    {thread : ℕ → ℕ} {s t : System} → IsUnnested thread s → Served thread s t → IsUnnested thread t
Served-IsUnnested {thread} {s = s} un (go i {p} {p'} h called free mv d) k pk held active j q got
      same apart =
    let (rj, at_j, waits_j, idle_j) = before_signal j d got in
    let (rk, at_k, waits_k, idle_k) = before_signal k d held in
    elim (get_elem?-set s.uses i p' j h at_j) [
      | inl (ij, ej) ↦ elim (get_elem?-set s.uses i p' k h at_k) [
        | inl (ik, ek) ↦ absurd (apart (sym ij ∙ ik))
        | inr (nk, old_k) ↦
            sym waits_j
            ∙ ap blocked ej
            ∙ move_waits called mv
                (un k rk old_k (λ e. active (idle_k e)) i p h (ap thread ij ∙ same) nk)
      ]
      | inr (nj, old_j) ↦ elim (get_elem?-set s.uses i p' k h at_k) [
        | inl (ik, ek) ↦ sym waits_j ∙ free j rj old_j (same ∙ ap thread (sym ik)) (λ e. nj (sym e))
        | inr (nk, old_k) ↦
            sym waits_j ∙ un k rk old_k (λ e. active (idle_k e)) j rj old_j same apart
      ]
    ]

module _ {thread : ℕ → ℕ} {s : System} (inv : Inv s.monitor s.uses) (un : IsUnnested thread s) where
  -- A use that holds the lock can let go of it: no assertion fails.
  reader_leaves : (i : ℕ) → get_elem? s.uses i ≡ some reading → (t : System) × Served thread s t
  unfolding ReadWriteMutex.unlock_shared
  reader_leaves i h =
      let left = decrement s.monitor.read_locked in
      let notice : Notice = if left == 0 then one_writer else nobody in
      let (cs, d) = deliver notice (set s.uses i idle) in
      let mv : Move s.monitor reading idle (record s.monitor { read_locked = left }) notice =
        read_exit (ground (arith, inv.readers, le-weigh is_reading s.uses i h)) in
      (_, go i h (λ e. cc) (un i reading h (λ e. cc)) mv d)

  writer_leaves : (i : ℕ) → get_elem? s.uses i ≡ some writing → (t : System) × Served thread s t
  unfolding ReadWriteMutex.unlock
  writer_leaves i h =
      let notice : Notice = if s.monitor.write_waiting == 0 then all_readers else one_writer in
      let (cs, d) = deliver notice (set s.uses i idle) in
      let mv : Move s.monitor writing idle (record s.monitor { write_locked = false }) notice =
        write_exit (ground (arith, inv.writers, le-weigh is_writing s.uses i h)) in
      (_, go i h (λ e. cc) (un i writing h (λ e. cc)) mv d)

  resumed : CanResume s → (t : System) × Served thread s t
  resumed (reader i m h e) =
      (_, go i h (λ q. cc) (un i (read_blocked true) h (λ q. cc)) (read_resume e) to_nobody)
  resumed (writer i m h e) =
      (_, go i h (λ q. cc) (un i (write_blocked true) h (λ q. cc)) (write_resume e) to_nobody)

-- Where no use can go on, none is blocked.
nobody_waits :
    {n : ℕ} {thread : ℕ → ℕ} {s : System}
    → n < 2 ^ 32
    → Reach n s
    → IsUnnested thread s
    → ((t : System) → ¬ Served thread s t)
    → (i : ℕ) {p : Pc} → get_elem? s.uses i ≡ some p
    → ¬ IsBlocked p
nobody_waits {s = s} few r un rests i h waits =
    let inv : Inv s.monitor s.uses = Reach-Inv few r in
    let (t, step) = resumed {s = s} inv un (
      no_deadlock few r i h waits
        (λ j e. let (t, step) = reader_leaves {s = s} inv un j e in rests t step)
        (λ j e. let (t, step) = writer_leaves {s = s} inv un j e in rests t step)) in
    rests t step

-- Where no use can go on, all are idle.
at_rest :
    {n : ℕ} {thread : ℕ → ℕ} {s : System}
    → n < 2 ^ 32
    → Reach n s
    → IsUnnested thread s
    → ((t : System) → ¬ Served thread s t)
    → (i : ℕ) (p : Pc) → get_elem? s.uses i ≡ some p
    → p ≡ idle
at_rest few r un rests i idle h = refl
at_rest {s = s} few r un rests i reading h =
    let (t, step) = reader_leaves {s = s} (Reach-Inv few r) un i h in absurd (rests t step)
at_rest {s = s} few r un rests i writing h =
    let (t, step) = writer_leaves {s = s} (Reach-Inv few r) un i h in absurd (rests t step)
at_rest few r un rests i (read_blocked w) h = absurd (nobody_waits few r un rests i h (w, inl refl))
at_rest few r un rests i (write_blocked w) h =
    absurd (nobody_waits few r un rests i h (w, inr refl))

run-IsUnnested :
    {thread : ℕ → ℕ} {s t : System} → IsUnnested thread s → Runs thread s t → IsUnnested thread t
run-IsUnnested un here = un
run-IsUnnested un (next run step) = Served-IsUnnested (run-IsUnnested un run) step

-- No call waits without end where threads do not nest their locks and let go of them: with fewer than 2 ^ 32
-- uses, from every reachable state in which no thread holds the lock or waits for it a second time while it
-- waits for it, the uses that hold the lock or wait for it make at most `demand n s` steps, letting go of the
-- lock or going on behind a wait, in whatever order, while no further call is made and no wait ends without a
-- signal; and where none of them can make such a step, every use is idle.
pub all_served :
    {n : ℕ} {thread : ℕ → ℕ} {s t : System}
    → n < 2 ^ 32
    → Reach n s
    → IsUnnested thread s
    → (run : Runs thread s t)
    → (steps run ≤ demand n s)
      × (((u : System) → ¬ Served thread t u)
          → (i : ℕ) (p : Pc) → get_elem? t.uses i ≡ some p
          → p ≡ idle)
all_served few r un run =
    let (reached_t, bound) = run-Reach r run in
    (omega arith, λ rests. at_rest few reached_t (run-IsUnnested un run) rests)
