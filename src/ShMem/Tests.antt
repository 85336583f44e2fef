-- ===== src/ShMem/Tests.antt =====
-- Two runs of shared memory that is created and mapped.
use fbutils.Prelude.{◌≡◌, refl, Bool, true, none, some, [], ◌∷◌, ◌++◌}
use fbutils.ShMem.{Os, opened, mapped, munmap, close, shm_unlink, constructed, connect, disconnect}
use fbutils.ShMem.Balance.{opens, closes, maps, unmaps, held, start, connects, balance}

abbrev os : Os
os = record { shm_open = none; shm_create = some 3; ftruncate = λ fd. true; mmap = λ fd. some 40 }

abbrev again : Os
again = record { shm_open = some 4; shm_create = none; ftruncate = λ fd. true; mmap = λ fd. none }

run :
    (connect os constructed).1 ++ (disconnect true (connect os constructed).0).1
    ≡ opened 3 ∷ mapped 40 ∷ munmap 40 ∷ close 3 ∷ shm_unlink ∷ []
unfolding connect disconnect
run = refl

balance_example :
    let m = (connect os constructed).0 in
    let calls = [] ++ (connect os constructed).1 in
    (opens calls ≡ closes calls ++ held m.fd)
    × (maps calls ≡ unmaps calls ++ held m.mem)
    × ((destroy : Bool)
        → let all = calls ++ (disconnect destroy m).1 in
          (opens all ≡ closes all) × (maps all ≡ unmaps all))
balance_example = balance (connects os start refl)
