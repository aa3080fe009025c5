-- ===== src/Futex.antt =====
-- The mutexes over the kernel's futex: futex/simple_mutex.c and futex/mutex_drepper.c, a child for
-- each file.
pub mod Calls
pub mod SimpleMutex
pub mod Drepper
mod Sleepers
mod Tests
use concurrencia.Base.{ℕ, ◌≡◌, ◌⊎◌, Bool, true, Option, none, some, List, ◌++◌}
use concurrencia.Worker.{Action}
use concurrencia.Futex.Calls.{Kernel, Documented}

pub data Program : Type 0 where
  simple_mutex mutex_drepper : Program

unfoldable pub main : Program → Kernel → List Action → Option ℕ
main simple_mutex = SimpleMutex.main
main mutex_drepper = Drepper.main

unfoldable pub in_critical : Program → Kernel → List Action → ℕ → Bool
in_critical simple_mutex = SimpleMutex.in_critical
in_critical mutex_drepper = Drepper.in_critical

-- What the programs print as the expected value.
abbrev pub expected : Program → ℕ
expected simple_mutex = SimpleMutex.max_count
expected mutex_drepper = Drepper.max_count

-- Over any kernel that does as documented, waits that are interrupted included, each of the two
-- programs, after any steps of its threads, has printed nothing or the expected count, and its threads
-- can be run on so that it prints the expected count: no thread sleeps for ever.
pub futex_prints :
    (p : Program) (kernel : Kernel) (actions : List Action)
    → Documented kernel
    → ((main p kernel actions ≡ none) ⊎ (main p kernel actions ≡ some (expected p)))
      × ((rest : List Action) × (main p kernel (actions ++ rest) ≡ some (expected p)))
unfolding main
futex_prints simple_mutex kernel actions d = SimpleMutex.main-prints kernel d actions
futex_prints mutex_drepper kernel actions d = Drepper.main-prints kernel d actions

-- In each of the two programs, over a kernel that does as documented, two threads that are in the
-- critical section after the same steps are the same thread.
pub futex_excludes :
    (p : Program) (kernel : Kernel) (actions : List Action) (i j : ℕ)
    → Documented kernel
    → in_critical p kernel actions i ≡ true
    → in_critical p kernel actions j ≡ true
    → i ≡ j
unfolding in_critical
futex_excludes simple_mutex kernel actions i j d =
    SimpleMutex.critical-excludes kernel d actions i j
futex_excludes mutex_drepper kernel actions i j d = Drepper.critical-excludes kernel d actions i j
