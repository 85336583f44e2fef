-- ===== src/ShMem.antt =====
-- include/fbu/shmem.hpp: shared memory. The system calls are parameters, in `Os`: what `shm_open` returns
-- without and with `O_CREAT`, whether `ftruncate` succeeds, and what `mmap` returns. None stands for -1, for
-- `MAP_FAILED` and for a null pointer.
--
-- Each method gives the object that it leaves and the calls that take something from the system or give it
-- back, in their order.
pub mod Balance
mod Tests
use fbutils.Prelude.{ℕ, Bool, true, false, Option, none, some, List, [], ◌∷◌, ◌++◌, if◌then◌else◌}

pub record Os : Type 0 where
  pub shm_open : Option ℕ
  pub shm_create : Option ℕ
  pub ftruncate : ℕ → Bool
  pub mmap : ℕ → Option ℕ

pub data Call : Type 0 where
  opened : ℕ → Call  -- `shm_open` that returned a descriptor
  mapped : ℕ → Call  -- `mmap` that returned an address
  munmap : ℕ → Call
  close : ℕ → Call
  shm_unlink : Call

-- `ShMem`, without its name and size: `mFD` and `mMem`
pub record ShMem : Type 0 where
  pub fd : Option ℕ
  pub mem : Option ℕ

abbrev pub constructed : ShMem
constructed = record { fd = none; mem = none }

abbrev pub map_calls : Option ℕ → List Call
map_calls none = []
map_calls (some p) = mapped p ∷ []

-- The end of `openOrCreate`, with a descriptor
unfoldable pub map_memory : Os → Bool → ℕ → ShMem → ShMem × List Call
map_memory os is_creator fd m =
    let done : ShMem × List Call =
      (record { fd = some fd; mem = os.mmap fd }, map_calls (os.mmap fd)) in
    if is_creator then (if os.ftruncate fd then done else (record m { fd = some fd }, [])) else done

unfoldable pub opening : Os → Bool → ℕ → ShMem → ShMem × List Call
unfolding map_memory
opening os is_creator fd m =
    let (left, calls) = map_memory os is_creator fd m in (left, opened fd ∷ calls)

-- `openOrCreate`, which is `connect`
unfoldable pub connect : Os → ShMem → ShMem × List Call
unfolding opening
connect os m = elim os.shm_open [
  | some fd ↦ opening os false fd m
  | none ↦ elim os.shm_create [
    | some fd ↦ opening os true fd m
    | none ↦ (record m { fd = none }, [])
  ]
]

unfoldable pub unmap : Option ℕ → List Call
unmap none = []
unmap (some p) = munmap p ∷ []

unfoldable pub release : Bool → Option ℕ → List Call
release destroy none = []
release destroy (some fd) = close fd ∷ (if destroy then shm_unlink ∷ [] else [])

-- `disconnect`, and the destructor, which calls it with false
unfoldable pub disconnect : Bool → ShMem → ShMem × List Call
unfolding unmap release
disconnect destroy m = (record { fd = none; mem = none }, unmap m.mem ++ release destroy m.fd)
