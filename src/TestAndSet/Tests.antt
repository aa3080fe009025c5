-- ===== src/TestAndSet/Tests.antt =====
-- Runs of the test-and-set locks, and the theorems at such runs.
use concurrencia.Base.{ℕ, ◌≡◌, refl, ◌⊎◌, true, false, none, some, List, [], ◌∷◌, ◌++◌}
use concurrencia.Worker.{Action}
use concurrencia.TestAndSet.{
  simple, main, in_critical, expected, test_and_set_prints, test_and_set_excludes,
}
use concurrencia.Worker
use concurrencia.TestAndSet.Simple

abbrev go : ℕ → Action
go i = record { thread = i; choice = 0 }

-- Thread 1 is in the critical section, and thread 0 waits.
abbrev contended : List Action
contended = go 0 ∷ go 1 ∷ go 1 ∷ go 0 ∷ []

contended_owner : in_critical simple contended 1 ≡ true
unfolding in_critical Simple.in_critical Simple.step Worker.in_critical Worker.run Worker.tick
    Worker.create Worker.worker_turn Worker.loop_turn Worker.lock_turn
contended_owner = refl

contended_waiter : in_critical simple contended 0 ≡ false
unfolding in_critical Simple.in_critical Simple.step Worker.in_critical Worker.run Worker.tick
    Worker.create Worker.worker_turn Worker.loop_turn Worker.lock_turn
contended_waiter = refl

test_and_set_prints_example :
    ((main simple contended ≡ none) ⊎ (main simple contended ≡ some (expected simple)))
    × ((rest : List Action) × (main simple (contended ++ rest) ≡ some (expected simple)))
test_and_set_prints_example = test_and_set_prints simple contended

test_and_set_excludes_example : ◌≡◌ {A = ℕ} 1 1
unfolding in_critical Simple.in_critical Simple.step Worker.in_critical Worker.run Worker.tick
    Worker.create Worker.worker_turn Worker.loop_turn Worker.lock_turn
test_and_set_excludes_example = test_and_set_excludes simple contended 1 1 refl refl
