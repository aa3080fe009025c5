-- ===== src/CompareExchange/Tests.antt =====
-- Runs of the compare-exchange locks, and the theorems at such runs.
use concurrencia.Base.{ℕ, ◌≡◌, refl, ◌⊎◌, true, false, none, some, List, [], ◌∷◌, ◌++◌}
use concurrencia.Worker.{Action}
use concurrencia.CompareExchange.{
  test, main, in_critical, expected, compare_exchange_prints, compare_exchange_excludes,
}
use concurrencia.Worker
use concurrencia.CompareExchange.Test

abbrev go : ℕ → Action
go i = record { thread = i; choice = 0 }

-- Thread 1 is in the critical section, and thread 0 waits.
abbrev contended : List Action
contended = go 0 ∷ go 1 ∷ go 1 ∷ go 0 ∷ []

contended_owner : in_critical test contended 1 ≡ true
unfolding in_critical Test.in_critical Test.step Worker.in_critical Worker.run Worker.tick
    Worker.create Worker.worker_turn Worker.loop_turn Worker.lock_turn
contended_owner = refl

contended_waiter : in_critical test contended 0 ≡ false
unfolding in_critical Test.in_critical Test.step Worker.in_critical Worker.run Worker.tick
    Worker.create Worker.worker_turn Worker.loop_turn Worker.lock_turn
contended_waiter = refl

compare_exchange_prints_example :
    ((main test contended ≡ none) ⊎ (main test contended ≡ some (expected test)))
    × ((rest : List Action) × (main test (contended ++ rest) ≡ some (expected test)))
compare_exchange_prints_example = compare_exchange_prints test contended

compare_exchange_excludes_example : ◌≡◌ {A = ℕ} 1 1
unfolding in_critical Test.in_critical Test.step Worker.in_critical Worker.run Worker.tick
    Worker.create Worker.worker_turn Worker.loop_turn Worker.lock_turn
compare_exchange_excludes_example = compare_exchange_excludes test contended 1 1 refl refl
