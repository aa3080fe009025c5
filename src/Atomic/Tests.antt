-- ===== src/Atomic/Tests.antt =====
-- A run of the transactions, and the theorem at it.
use concurrencia.Base.{◌≡◌, refl, ◌⊎◌, true, none, some, List, [], ◌∷◌, ◌++◌}
use concurrencia.Worker
use concurrencia.Worker.{Action}
use concurrencia.Atomic.Defs
use concurrencia.Atomic.{rw_transaction, main, expected, atomic_prints}

-- Thread 2 commits, thread 1 is aborted and then commits.
abbrev begun : List Action
begun =
    record { thread = 2; choice = 0 }
    ∷ record { thread = 1; choice = 3 }
    ∷ record { thread = 1; choice = 0 }
    ∷ []

two_rounds : (Defs.run Worker.plain true 4 5 begun Defs.create).counter 0 ≡ 2
unfolding Defs.run Defs.tick Defs.count Defs.commit
two_rounds = refl

atomic_prints_example :
    ((main rw_transaction begun ≡ none)
      ⊎ (main rw_transaction begun ≡ some (expected rw_transaction)))
    × ((rest : List Action) × (main rw_transaction (begun ++ rest)
          ≡ some (expected rw_transaction)))
atomic_prints_example = atomic_prints rw_transaction begun
