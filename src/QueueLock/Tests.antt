-- ===== src/QueueLock/Tests.antt =====
-- A malloc that gives thread `i` the address `i + 1`, and a run in which two threads wait.
use concurrencia.Base.{ℕ, ◌+◌, ◌≡◌, ◌≢◌, ◌⊎◌, refl, none, some, List, [], ◌∷◌, ◌++◌, arith}
use concurrencia.Worker
use concurrencia.Worker.{Action}
use concurrencia.QueueLock.Clh
use concurrencia.QueueLock.Clh.Defs
use concurrencia.QueueLock.Clh.Defs.{Malloc, Fresh}
use concurrencia.QueueLock.ClhYield
use concurrencia.QueueLock.{
  clh_spinlock, clh_spinlock_yield, main, in_critical, expected, clh_prints, clh_excludes,
  clh_nodes_apart,
}

-- New memory holds some bytes.
abbrev in_order : Malloc
in_order = record { address = λ i. i + 1; locked = λ x. 7; prev = λ x. x + 5 }

in_order-Fresh : Fresh in_order
in_order-Fresh = record {
  apart = λ i j d e. d (omega (arith, e));
  unused = λ i e. absurd (omega (arith, e));
}

abbrev step_of : ℕ → Action
step_of i = record { thread = i; choice = 0 }

-- Thread 0 gets the lock; threads 1 and 2 come into the queue behind it.
abbrev contended : List Action
contended =
    step_of 0
    ∷ step_of 0
    ∷ step_of 1
    ∷ step_of 0
    ∷ step_of 0
    ∷ step_of 1
    ∷ step_of 2
    ∷ step_of 2
    ∷ step_of 1
    ∷ step_of 2
    ∷ step_of 2
    ∷ step_of 1
    ∷ []

-- The node of thread 2 follows that of thread 1, which follows that of thread 0.
queues :
    let memory =
      (Worker.run
        (Defs.lock in_order)
        Worker.plain
        4
        10
        contended
        (Worker.create (Defs.lock in_order) Worker.plain 4 10)).lock in
    (memory.tail ≡ 3) × (memory.prev 3 ≡ 2) × (memory.prev 2 ≡ 1) × (memory.prev 1 ≡ 0)
unfolding Worker.run Worker.tick Worker.create Worker.worker_turn Worker.loop_turn Worker.lock_turn
    Defs.step
queues = (refl, refl, refl, refl)

clh_prints_example :
    ((main clh_spinlock in_order contended ≡ none)
      ⊎ (main clh_spinlock in_order contended ≡ some (expected clh_spinlock)))
    × ((rest : List Action) × (main clh_spinlock in_order (contended ++ rest)
          ≡ some (expected clh_spinlock)))
clh_prints_example = clh_prints clh_spinlock in_order contended in_order-Fresh

clh_excludes_example : ◌≡◌ {A = ℕ} 0 0
unfolding in_critical ClhYield.in_critical Worker.in_critical Worker.run Worker.tick Worker.create
    Worker.worker_turn Worker.loop_turn Worker.lock_turn ClhYield.step
clh_excludes_example =
    clh_excludes clh_spinlock_yield in_order contended 0 0 in_order-Fresh refl refl

-- Thread 0 has stored the counter and unlocked: its node is the static one now.
abbrev handed_over : List Action
handed_over = contended ++ step_of 0 ∷ step_of 0 ∷ step_of 0 ∷ step_of 0 ∷ step_of 0 ∷ []

takes_over : Clh.node_of in_order handed_over 0 ≡ 0
unfolding Clh.node_of Worker.run Worker.tick Worker.create Worker.worker_turn Worker.loop_turn
    Worker.lock_turn Worker.body_turn Defs.step
takes_over = refl

clh_nodes_apart_example : Clh.node_of in_order handed_over 0 ≢ Clh.node_of in_order handed_over 1
clh_nodes_apart_example =
    clh_nodes_apart in_order handed_over 0 1 in_order-Fresh (omega arith) (omega arith)
      (λ e. absurd (omega (arith, e)))
