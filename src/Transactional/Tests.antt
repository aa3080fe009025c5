-- ===== src/Transactional/Tests.antt =====
-- Runs of the spin locks, and the theorems at such runs.
use concurrencia.Base.{ℕ, ◌≡◌, refl, ◌⊎◌, true, false, none, some, List, [], ◌∷◌, ◌++◌}
use concurrencia.Worker.{Action}
use concurrencia.Transactional.{
  rw_spinlock, main, in_critical, expected, spinlock_prints, spinlock_excludes,
}
use concurrencia.Worker
use concurrencia.Transactional.RwSpinlock

abbrev go : ℕ → Action
go i = record { thread = i; choice = 0 }

-- Thread 1 is in the critical section, and thread 0 waits.
abbrev contended : List Action
contended = go 1 ∷ go 0 ∷ go 1 ∷ go 0 ∷ []

contended_owner : in_critical rw_spinlock contended 1 ≡ true
unfolding in_critical RwSpinlock.in_critical RwSpinlock.step Worker.in_critical Worker.run
    Worker.tick Worker.create Worker.worker_turn Worker.loop_turn Worker.lock_turn Worker.body_turn
contended_owner = refl

contended_waiter : in_critical rw_spinlock contended 0 ≡ false
unfolding in_critical RwSpinlock.in_critical RwSpinlock.step Worker.in_critical Worker.run
    Worker.tick Worker.create Worker.worker_turn Worker.loop_turn Worker.lock_turn Worker.body_turn
contended_waiter = refl

spinlock_prints_example :
    ((main rw_spinlock contended ≡ none)
      ⊎ (main rw_spinlock contended ≡ some (expected rw_spinlock)))
    × ((rest : List Action) × (main rw_spinlock (contended ++ rest) ≡ some (expected rw_spinlock)))
spinlock_prints_example = spinlock_prints rw_spinlock contended

spinlock_excludes_example : ◌≡◌ {A = ℕ} 1 1
unfolding in_critical RwSpinlock.in_critical RwSpinlock.step Worker.in_critical Worker.run
    Worker.tick Worker.create Worker.worker_turn Worker.loop_turn Worker.lock_turn Worker.body_turn
spinlock_excludes_example = spinlock_excludes rw_spinlock contended 1 1 refl refl
