-- ===== src/Mutex/Semaphore.antt =====
-- semaphores/semaphore.c. The POSIX semaphores are a parameter.
use concurrencia.Base.{ℕ, ◌/◌, ◌≡◌, ◌⊎◌, Option, none, some, List, ◌++◌, arith}
use concurrencia.Worker
use concurrencia.Worker.{Task, Worker, Turn, Action}
use concurrencia.Mutex.Gate
use concurrencia.Mutex.Gate.{Gate, OneAtATime}
use concurrencia.Mutex.Calls.{Semaphores, SemaphoresDocumented}

abbrev pub num_threads : ℕ
num_threads = 4

abbrev pub max_count : ℕ
max_count = 10000000

-- `counter += 1`
abbrev pub task : Task
task = Worker.plain

-- What the program prints as expected.
abbrev pub expected : ℕ
expected = max_count

module _ (semaphores : Semaphores) where
  open semaphores use {Semaphore, init, value, wait, post}

  -- `sem_init(&mutex, 0, 1)` of `main`, and `sem_wait` and `sem_post` of `count`.
  abbrev pub gate : Gate
  gate = record { State = Semaphore; first = init 1; room = value; enter = wait; leave = post }

  -- One step of a thread that runs `count`.
  unfoldable pub count : ℕ → ℕ → Semaphore → (ℕ → ℕ) → Worker Gate.Local → Turn (Gate.lock gate)
  count = Worker.worker_turn (Gate.lock gate) task num_threads (max_count / num_threads)

  -- What `main` prints as the counter, if the threads have all ended after the given steps.
  unfoldable pub main : List Action → Option ℕ
  main = Worker.main (Gate.lock gate) task num_threads (max_count / num_threads)

  module _ (documented : SemaphoresDocumented semaphores) where
    one_at_a_time : OneAtATime gate
    one_at_a_time = record {
      room-first = documented.value-init 1 (omega arith);
      enter-shut = documented.wait-zero;
      enter-open = λ c s e.
          let (s', f, g) = documented.wait-positive c s (omega (arith, e)) in
          (s', f, omega (arith, e, g));
      room-leave = λ s e. omega (arith, documented.value-post s (omega (arith, e)), e);
    }

    pub main-prints :
        (actions : List Action)
        → ((main actions ≡ none) ⊎ (main actions ≡ some expected))
          × ((rest : List Action) × (main (actions ++ rest) ≡ some expected))
    unfolding main
    main-prints actions =
        Worker.prints_plain num_threads (max_count / num_threads) (Gate.lock gate)
          (Gate.lock_laws gate one_at_a_time num_threads) actions
