-- ===== src/ArrayLock/Tests.antt =====
-- A run in which a thread waits at its cell, and the theorems at it.
use concurrencia.Base.{true, ℕ, ◌≡◌, ◌⊎◌, refl, none, some, List, [], ◌∷◌, ◌++◌, arith}
use concurrencia.Worker
use concurrencia.Worker.{Action}
use concurrencia.ArrayLock.VariableSize
use concurrencia.ArrayLock.VariableSize.Defs
use concurrencia.ArrayLock.Static
use concurrencia.ArrayLock.{array_prints, array_excludes, array_overlaps, array_locks_agree}

abbrev step_of : ℕ → Action
step_of i = record { thread = i; choice = 0 }

-- Thread 0 gets the lock, and thread 1 waits.
abbrev contended : List Action
contended = step_of 0 ∷ step_of 0 ∷ step_of 1 ∷ step_of 1 ∷ step_of 0 ∷ step_of 0 ∷ step_of 1 ∷ []

abbrev zeros : ℕ → ℕ
zeros x = 0

array_prints_example :
    ((Static.main contended ≡ none) ⊎ (Static.main contended ≡ some Static.max_count))
    × ((rest : List Action) × (Static.main (contended ++ rest) ≡ some Static.max_count))
array_prints_example = array_prints contended

-- A cache line of 64 bytes, and memory that was in use before.
abbrev used : ℕ → ℕ
used x = 7

array_overlaps_example :
    (actions : List Action) × (VariableSize.in_critical 64 used actions 0 ≡ true)
    × (VariableSize.in_critical 64 used actions 1 ≡ true)
array_overlaps_example =
    array_overlaps 64 used (record { some_padding = omega arith; small = omega arith })
      (λ e. absurd (omega (arith, e)))

array_excludes_example : ◌≡◌ {A = ℕ} 0 0
unfolding Static.in_critical Worker.in_critical Worker.run Worker.tick Worker.create
    Worker.worker_turn Worker.loop_turn Worker.lock_turn Worker.body_turn Static.step
array_excludes_example = array_excludes contended 0 0 refl refl

-- The last cell hands the turn back to the first.
array_locks_agree_example :
    ((Static.step 0 0 (record { tail = 4; flag = zeros }) (Static.held 96)).0
      ≡ (Defs.step 32 0 0 (record { tail = 4; flag = zeros }) (Defs.held 96)).0)
    × (Static.view (Static.step 0 0 (record { tail = 4; flag = zeros }) (Static.held 96)).1
        ≡ (Defs.step 32 0 0 (record { tail = 4; flag = zeros }) (Defs.held 96)).1)
array_locks_agree_example =
    array_locks_agree 0 0 (record { tail = 4; flag = zeros }) (Static.held 96)
