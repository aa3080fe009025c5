-- ===== src/Atomic/RwStm.antt =====
-- transactional/rw_tinystm.c, with transactional/defs.h. The calls of tinySTM between `TM_START` and
-- `TM_COMMIT` are one step, which may be aborted and tried again from `TM_START`.
use concurrencia.Base.{ℕ, ◌/◌, ◌≡◌, ◌⊎◌, true, Option, none, some, List, ◌++◌}
use concurrencia.Worker
use concurrencia.Worker.{Task, Action}
use concurrencia.Atomic.Defs
use concurrencia.Atomic.Results

abbrev pub num_threads : ℕ
num_threads = 4

abbrev pub max_count : ℕ
max_count = 100000000

-- The load of `counter`, and the store of the sum if `i % 10 == 0`.
abbrev pub task : Task
task = Worker.one_in_ten

-- What the program prints as expected.
abbrev pub expected : ℕ
expected = max_count / 10

printed : task.report (Worker.expected num_threads (max_count / num_threads) task) ≡ expected
printed = Worker.expected-one_in_ten num_threads (max_count / num_threads)

-- One step of a thread that runs `count`.
unfoldable pub count : ℕ → ℕ → Defs.System → Defs.System
count = Defs.count task true num_threads (max_count / num_threads)

-- What `main` prints as the counter, if the threads have all ended after the given steps.
unfoldable pub main : List Action → Option ℕ
main = Defs.main task true num_threads (max_count / num_threads)

pub main-prints :
    (actions : List Action)
    → ((main actions ≡ none) ⊎ (main actions ≡ some expected))
      × ((rest : List Action) × (main (actions ++ rest) ≡ some expected))
unfolding main
main-prints actions =
    rw printed at (Results.prints task true num_threads (max_count / num_threads) actions)
