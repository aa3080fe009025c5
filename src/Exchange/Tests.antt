-- ===== src/Exchange/Tests.antt =====
-- Runs of the exchange locks, and the theorems at such runs.
use concurrencia.Base.{ℕ, ◌≡◌, refl, ◌⊎◌, true, false, none, some, List, [], ◌∷◌, ◌++◌}
use concurrencia.Worker.{Action}
use concurrencia.Exchange.{
  test_swap, main, in_critical, expected, exchange_prints, exchange_excludes,
}
use concurrencia.Worker
use concurrencia.Exchange.TestSwap

abbrev go : ℕ → Action
go i = record { thread = i; choice = 0 }

-- Thread 1 is in the critical section, and thread 0 waits.
abbrev contended : List Action
contended = go 0 ∷ go 1 ∷ go 1 ∷ go 0 ∷ []

contended_owner : in_critical test_swap contended 1 ≡ true
unfolding in_critical TestSwap.in_critical TestSwap.step Worker.in_critical Worker.run Worker.tick
    Worker.create Worker.worker_turn Worker.loop_turn Worker.lock_turn
contended_owner = refl

contended_waiter : in_critical test_swap contended 0 ≡ false
unfolding in_critical TestSwap.in_critical TestSwap.step Worker.in_critical Worker.run Worker.tick
    Worker.create Worker.worker_turn Worker.loop_turn Worker.lock_turn
contended_waiter = refl

exchange_prints_example :
    ((main test_swap contended ≡ none) ⊎ (main test_swap contended ≡ some (expected test_swap)))
    × ((rest : List Action) × (main test_swap (contended ++ rest) ≡ some (expected test_swap)))
exchange_prints_example = exchange_prints test_swap contended

exchange_excludes_example : ◌≡◌ {A = ℕ} 1 1
unfolding in_critical TestSwap.in_critical TestSwap.step Worker.in_critical Worker.run Worker.tick
    Worker.create Worker.worker_turn Worker.loop_turn Worker.lock_turn
exchange_excludes_example = exchange_excludes test_swap contended 1 1 refl refl
