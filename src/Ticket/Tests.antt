-- ===== src/Ticket/Tests.antt =====
-- Runs of the ticket locks, and the theorems at such runs.
use concurrencia.Base.{ℕ, ◌<◌, ◌≡◌, refl, ◌⊎◌, true, false, arith, none, some, List, [], ◌∷◌, ◌++◌}
use concurrencia.Worker.{Action}
use concurrencia.Ticket.{
  yielding, main, in_critical, expected, ticket_prints, ticket_excludes, turns_before, ticket_waits,
  num_threads,
}
use concurrencia.Worker
use concurrencia.Ticket.Yielding

abbrev go : ℕ → Action
go i = record { thread = i; choice = 0 }

-- Thread 1 is in the critical section, and thread 0 waits.
abbrev contended : List Action
contended = go 1 ∷ go 0 ∷ go 1 ∷ go 0 ∷ []

contended_owner : in_critical yielding contended 1 ≡ true
unfolding in_critical Yielding.in_critical Yielding.step Worker.in_critical Worker.run Worker.tick
    Worker.create Worker.worker_turn Worker.loop_turn Worker.lock_turn
contended_owner = refl

contended_waiter : in_critical yielding contended 0 ≡ false
unfolding in_critical Yielding.in_critical Yielding.step Worker.in_critical Worker.run Worker.tick
    Worker.create Worker.worker_turn Worker.loop_turn Worker.lock_turn
contended_waiter = refl

ticket_prints_example :
    ((main yielding contended ≡ none) ⊎ (main yielding contended ≡ some (expected yielding)))
    × ((rest : List Action) × (main yielding (contended ++ rest) ≡ some (expected yielding)))
ticket_prints_example = ticket_prints yielding contended

ticket_excludes_example : ◌≡◌ {A = ℕ} 1 1
unfolding in_critical Yielding.in_critical Yielding.step Worker.in_critical Worker.run Worker.tick
    Worker.create Worker.worker_turn Worker.loop_turn Worker.lock_turn
ticket_excludes_example = ticket_excludes yielding contended 1 1 refl refl

-- Thread 0 waits for one turn.
ticket_waits_example : 1 < num_threads
unfolding turns_before Yielding.turns_before Yielding.step Worker.run Worker.tick Worker.create
    Worker.worker_turn Worker.loop_turn Worker.lock_turn
ticket_waits_example = ticket_waits yielding contended 0 1 (omega arith) refl
