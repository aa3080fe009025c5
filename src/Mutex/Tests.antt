-- ===== src/Mutex/Tests.antt =====
-- Mutexes that are a flag and semaphores that are a number, and the theorems at them.
use concurrencia.Base.{
  ℕ, zero, suc, ◌+◌, ◌<◌, ◌≡◌, refl, ◌⊎◌, Bool, true, false, Option, none, some, List, [], ◌∷◌,
  ◌++◌, arith,
}
use concurrencia.Worker
use concurrencia.Worker.{Action}
use concurrencia.Mutex.Calls.{Mutexes, MutexesDocumented, Semaphores, SemaphoresDocumented}
use concurrencia.Mutex.Gate
use concurrencia.Mutex.Semaphore
use concurrencia.Mutex.{array, main, expected, mutex_prints, semaphore_prints}

abbrev set_flag : Bool → Option Bool
set_flag true = none
set_flag false = some true

abbrev flags : Mutexes
flags = record {
  Mutex = Bool;
  initializer = false;
  is_locked = λ s. s;
  lock = λ c s. set_flag s;
  unlock = λ s. false;
}

flags-MutexesDocumented : MutexesDocumented flags
flags-MutexesDocumented = record {
  is_locked-initializer = refl;
  lock-locked = λ c s e. rw e refl;
  lock-unlocked = λ c s e. (true, rw e refl, refl);
  is_locked-unlock = λ s e. refl;
}

abbrev lower : ℕ → Option ℕ
lower zero = none
lower (suc v) = some v

abbrev numbers : Semaphores
numbers = record {
  Semaphore = ℕ;
  init = λ v. v;
  value = λ s. s;
  wait = λ c s. lower s;
  post = λ s. s + 1;
}

lowered : (v : ℕ) → 0 < v → (v' : ℕ) × (lower v ≡ some v') × (v' + 1 ≡ v)
lowered zero h = absurd (omega arith)
lowered (suc v) h = (v, refl, omega arith)

numbers-SemaphoresDocumented : SemaphoresDocumented numbers
numbers-SemaphoresDocumented = record {
  value-init = λ v h. refl;
  wait-zero = λ c s e. rw e refl;
  wait-positive = λ c s h. lowered s h;
  value-post = λ s h. refl;
}

-- Thread 0 gets the semaphore, and thread 1 blocks.
abbrev contended : List Action
contended =
    record { thread = 0; choice = 0 }
    ∷ record { thread = 0; choice = 0 }
    ∷ record { thread = 1; choice = 0 }
    ∷ record { thread = 1; choice = 0 }
    ∷ []

blocks :
    ((Worker.run
        (Gate.lock (Semaphore.gate numbers))
        Worker.plain
        4
        10
        contended
        (Worker.create (Gate.lock (Semaphore.gate numbers)) Worker.plain 4 10)).workers
      1).place
    ≡ Gate.blocked
unfolding Worker.run Worker.tick Worker.create Worker.worker_turn Worker.loop_turn Worker.lock_turn
    Worker.body_turn Gate.step
blocks = refl

mutex_prints_example :
    ((main array flags contended ≡ none) ⊎ (main array flags contended ≡ some (expected array)))
    × ((rest : List Action) × (main array flags (contended ++ rest) ≡ some (expected array)))
mutex_prints_example = mutex_prints array flags flags-MutexesDocumented contended

semaphore_prints_example :
    ((Semaphore.main numbers contended ≡ none)
      ⊎ (Semaphore.main numbers contended ≡ some Semaphore.expected))
    × ((rest : List Action) × (Semaphore.main numbers (contended ++ rest)
          ≡ some Semaphore.expected))
semaphore_prints_example = semaphore_prints numbers numbers-SemaphoresDocumented contended
