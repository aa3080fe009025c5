-- ===== src/Mutex/Array.antt =====
-- transactional/array_mutex.c, with transactional/defs.h. The pthread
-- mutex is a parameter.
use concurrencia.Base.{ℕ, ◌/◌, ◌≡◌, ◌⊎◌, Option, none, some, List, ◌++◌, arith}
use concurrencia.Worker
use concurrencia.Worker.{Task, Worker, Turn, Action}
use concurrencia.Mutex.Gate
use concurrencia.Mutex.Gate.{Gate, OneAtATime}
use concurrencia.Mutex.Calls.{Mutexes, MutexesDocumented}
use concurrencia.Mutex.Pthread

abbrev pub num_threads : ℕ
num_threads = 4

abbrev pub max_count : ℕ
max_count = 100000000

abbrev pub array_size : ℕ
array_size = 1024

-- `counter[i % ARRAY_SIZE]++`, and the print of `SUM(counter)`.
abbrev pub task : Task
task = Worker.array array_size

-- What the program prints as expected.
abbrev pub expected : ℕ
expected = max_count

printed : task.report (Worker.expected num_threads (max_count / num_threads) task) ≡ expected
printed = Worker.expected-array num_threads (max_count / num_threads) array_size (omega arith)

module _ (mutexes : Mutexes) where
  -- `mutex`, from its initializer on, with `pthread_mutex_lock` and `pthread_mutex_unlock`.
  abbrev pub gate : Gate
  gate = Pthread.gate mutexes

  -- One step of a thread that runs `count`.
  unfoldable pub count : ℕ → ℕ → mutexes.Mutex → (ℕ → ℕ) → Worker Gate.Local → Turn (Gate.lock gate)
  count = Worker.worker_turn (Gate.lock gate) task num_threads (max_count / num_threads)

  -- What `main` prints as the counter, if the threads have all ended after the given steps.
  unfoldable pub main : List Action → Option ℕ
  main = Worker.main (Gate.lock gate) task num_threads (max_count / num_threads)

  module _ (documented : MutexesDocumented mutexes) where
    one_at_a_time : OneAtATime gate
    one_at_a_time = Pthread.one_at_a_time mutexes documented

    pub main-prints :
        (actions : List Action)
        → ((main actions ≡ none) ⊎ (main actions ≡ some expected))
          × ((rest : List Action) × (main (actions ++ rest) ≡ some expected))
    unfolding main
    main-prints actions = rw printed at (
        Worker.prints num_threads (max_count / num_threads) (Gate.lock gate) task
          (Gate.lock_laws gate one_at_a_time num_threads) actions)
