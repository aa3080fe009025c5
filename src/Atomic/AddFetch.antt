-- ===== src/Atomic/AddFetch.antt =====
-- hardware/counter_ultimate.c. The increment is one atomic add.
use concurrencia.Base.{ℕ, ◌/◌, ◌≡◌, ◌⊎◌, false, Option, none, some, List, ◌++◌}
use concurrencia.Worker
use concurrencia.Worker.{Task, Action}
use concurrencia.Atomic.Defs
use concurrencia.Atomic.Results

abbrev pub num_threads : ℕ
num_threads = 4

abbrev pub max_count : ℕ
max_count = 10000000

-- `counter += 1`
abbrev pub task : Task
task = Worker.plain

-- What the program prints as expected.
abbrev pub expected : ℕ
expected = max_count

printed : task.report (Worker.expected num_threads (max_count / num_threads) task) ≡ expected
printed = Worker.expected-plain num_threads (max_count / num_threads)

-- One step of a thread that runs `count`.
unfoldable pub count : ℕ → ℕ → Defs.System → Defs.System
count = Defs.count task false num_threads (max_count / num_threads)

-- What `main` prints as the counter, if the threads have all ended after the given steps.
unfoldable pub main : List Action → Option ℕ
main = Defs.main task false num_threads (max_count / num_threads)

pub main-prints :
    (actions : List Action)
    → ((main actions ≡ none) ⊎ (main actions ≡ some expected))
      × ((rest : List Action) × (main (actions ++ rest) ≡ some expected))
unfolding main
main-prints actions =
    rw printed at (Results.prints task false num_threads (max_count / num_threads) actions)
