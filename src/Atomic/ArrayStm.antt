-- ===== src/Atomic/ArrayStm.antt =====
-- transactional/array_tinystm.c, with transactional/defs.h. The calls of tinySTM between `TM_START` and
-- `TM_COMMIT` are one step, which may be aborted and tried again from `TM_START`.
use concurrencia.Base.{ℕ, ◌/◌, ◌≡◌, ◌⊎◌, true, Option, none, some, List, ◌++◌, arith}
use concurrencia.Worker
use concurrencia.Worker.{Task, Action}
use concurrencia.Atomic.Defs
use concurrencia.Atomic.Results

abbrev pub num_threads : ℕ
num_threads = 4

abbrev pub max_count : ℕ
max_count = 100000000

abbrev pub array_size : ℕ
array_size = 1024

-- The load, the addition and the store of `counter[position]`, and the print of `SUM(counter)`.
abbrev pub task : Task
task = Worker.array array_size

-- What the program prints as expected.
abbrev pub expected : ℕ
expected = max_count

printed : task.report (Worker.expected num_threads (max_count / num_threads) task) ≡ expected
printed = Worker.expected-array num_threads (max_count / num_threads) array_size (omega arith)

-- One step of a thread that runs `count`.
unfoldable pub count : ℕ → ℕ → Defs.System → Defs.System
count = Defs.count task true num_threads (max_count / num_threads)

-- What `main` prints as the counter, if the threads have all ended after the given steps.
unfoldable pub main : List Action → Option ℕ
main = Defs.main task true num_threads (max_count / num_threads)

pub main-prints :
    (actions : List Action)
    → ((main actions ≡ none) ⊎ (main actions ≡ some expected))
      × ((rest : List Action) × (main (actions ++ rest) ≡ some expected))
unfolding main
main-prints actions =
    rw printed at (Results.prints task true num_threads (max_count / num_threads) actions)
