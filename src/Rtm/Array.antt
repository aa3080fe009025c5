-- ===== src/Rtm/Array.antt =====
-- transactional/intel/array_rtm.c, with transactional/defs.h
use concurrencia.Base.{ℕ, Bool, true, ◌/◌, ◌≡◌, ◌⊎◌, true, Option, none, some, List, ◌++◌, arith}
use concurrencia.Worker
use concurrencia.Worker.{Task, Action}
use concurrencia.Rtm.Defs
use concurrencia.Rtm.Defs.{Intrinsics}
use concurrencia.Rtm.Results

abbrev pub num_threads : ℕ
num_threads = 4

abbrev pub max_count : ℕ
max_count = 100000000

abbrev pub array_size : ℕ
array_size = 1024

-- `counter[i % ARRAY_SIZE]++`, and the print of `SUM(counter)`.
abbrev pub task : Task
task = Worker.array array_size

-- What the program prints as expected.
abbrev pub expected : ℕ
expected = max_count

printed : task.report (Worker.expected num_threads (max_count / num_threads) task) ≡ expected
printed = Worker.expected-array num_threads (max_count / num_threads) array_size (omega arith)

module _ (intrinsics : Intrinsics) where
  -- One step of a thread that runs `count`.
  unfoldable pub count : ℕ → Defs.System → Defs.Thread → Defs.Turn
  count = Defs.count intrinsics task num_threads (max_count / num_threads)

  -- What `main` prints as the counter, if the threads have all ended after the given steps.
  unfoldable pub main : List Action → Option ℕ
  main = Defs.main intrinsics task num_threads (max_count / num_threads)

  -- Thread `i` is between the return of `lock` and the call of `unlock`.
  unfoldable pub in_lock : List Action → ℕ → Bool
  in_lock = Results.in_lock intrinsics task num_threads (max_count / num_threads)

  pub main-prints :
      (actions : List Action) (environment : ℕ → ℕ)
      → ((main actions ≡ none) ⊎ (main actions ≡ some expected))
        × ((schedule : List ℕ) × (main (actions ++ Defs.played environment schedule)
              ≡ some expected))
  unfolding main
  main-prints actions environment =
      rw printed at
        (Results.prints intrinsics task num_threads (max_count / num_threads) actions environment)

  pub lock-excludes :
      (actions : List Action) (i j : ℕ)
      → in_lock actions i ≡ true
      → in_lock actions j ≡ true
      → i ≡ j
  unfolding in_lock
  lock-excludes = Results.excludes intrinsics task num_threads (max_count / num_threads)
