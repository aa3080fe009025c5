-- ===== src/Mutex.antt =====
-- Programs that lock by the system's primitives: semaphores/mutex.c, semaphores/semaphore.c and
-- transactional/array_mutex.c, a child for each. The pthread mutexes and the POSIX semaphores are
-- parameters with their documented laws; `Gate` derives the laws of a lock from them.
pub mod Calls
pub mod Gate
pub mod Pthread
pub mod Posix
pub mod Semaphore
pub mod Array
mod Tests
use concurrencia.Base.{ℕ, ◌≡◌, ◌⊎◌, Option, none, some, List, ◌++◌}
use concurrencia.Worker.{Action}
use concurrencia.Mutex.Calls.{Mutexes, MutexesDocumented, Semaphores, SemaphoresDocumented}

-- The programs over a pthread mutex.
pub data Program : Type 0 where
  posix array : Program

unfoldable pub main : Program → Mutexes → List Action → Option ℕ
main posix = Posix.main
main array = Array.main

-- What the programs print as the expected value.
abbrev pub expected : Program → ℕ
expected posix = Posix.expected
expected array = Array.expected

-- Over any pthread mutexes that do as documented, each of the two programs, after any steps of its
-- threads, has printed nothing or the expected count, and its threads can be run on so that it prints
-- the expected count.
pub mutex_prints :
    (p : Program) (mutexes : Mutexes)
    → MutexesDocumented mutexes
    → (actions : List Action)
    → ((main p mutexes actions ≡ none) ⊎ (main p mutexes actions ≡ some (expected p)))
      × ((rest : List Action) × (main p mutexes (actions ++ rest) ≡ some (expected p)))
unfolding main
mutex_prints posix = Posix.main-prints
mutex_prints array = Array.main-prints

-- Over any semaphores that do as documented, semaphores/semaphore.c, whose `main` gives its semaphore
-- the value 1, has printed nothing or the expected count after any steps of its threads, and its
-- threads can be run on so that it prints the expected count.
pub semaphore_prints :
    (semaphores : Semaphores)
    → SemaphoresDocumented semaphores
    → (actions : List Action)
    → ((Semaphore.main semaphores actions ≡ none)
        ⊎ (Semaphore.main semaphores actions ≡ some Semaphore.expected))
      × ((rest : List Action) × (Semaphore.main semaphores (actions ++ rest)
            ≡ some Semaphore.expected))
semaphore_prints = Semaphore.main-prints
