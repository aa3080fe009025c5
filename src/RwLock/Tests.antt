-- ===== src/RwLock/Tests.antt =====
-- A run in which a reader gets in while a writer waits, and the theorems at it.
use concurrencia.Base.{ℕ, ◌+◌, ◌^◌, ◌≡◌, refl, ◌⊎◌, true, false, none, some, List, [], ◌∷◌, ◌++◌}
use concurrencia.Worker.{Action}
use concurrencia.RwLock.Defs
use concurrencia.RwLock.Exclusion
use concurrencia.RwLock.{main, expected, is_writing, is_reading, rw_prints, rw_excludes}

abbrev step_of : ℕ → Action
step_of i = record { thread = i; choice = 0 }

-- Thread 0 makes its first round alone and is a reader in its second.
abbrev reader_in : List Action
reader_in =
    step_of 0
    ∷ step_of 0
    ∷ step_of 0
    ∷ step_of 0
    ∷ step_of 0
    ∷ step_of 0
    ∷ step_of 0
    ∷ step_of 0
    ∷ step_of 0
    ∷ step_of 0
    ∷ step_of 0
    ∷ step_of 0
    ∷ []

-- Thread 1 sets the writer's bit, and waits.
abbrev writer_waits : List Action
writer_waits = step_of 1 ∷ step_of 1 ∷ step_of 1 ∷ step_of 1 ∷ step_of 1 ∷ []

-- Thread 0 goes, and thread 1 is alone.
abbrev writer_alone : List Action
writer_alone = reader_in ++ writer_waits ++ (step_of 0 ∷ step_of 0 ∷ step_of 1 ∷ [])

both_in : (Defs.run 4 100 (reader_in ++ writer_waits) (Defs.create 4 100)).rw_lock ≡ 2 ^ 31 + 1
unfolding Defs.run Defs.tick Defs.count Defs.turn
both_in = refl

holder : is_writing writer_alone 1 ≡ true
unfolding is_writing Exclusion.is_writing Defs.run Defs.tick Defs.count Defs.turn
holder = refl

rw_prints_example :
    ((main writer_alone ≡ none) ⊎ (main writer_alone ≡ some expected))
    × ((rest : List Action) × (main (writer_alone ++ rest) ≡ some expected))
rw_prints_example = rw_prints writer_alone

rw_excludes_example :
    (is_writing writer_alone 0 ≡ true → ◌≡◌ {A = ℕ} 1 0) × (is_reading writer_alone 0 ≡ false)
rw_excludes_example = rw_excludes writer_alone 1 0 holder
