-- ===== src/Transactional.antt =====
-- Spin locks around an array of counters and around readers and writers:
-- transactional/array_spinlock.c, rw_spinlock.c, intel/array_hle.c and intel/rw_hle.c, a child for
-- each file.
pub mod ArraySpinlock
pub mod RwSpinlock
pub mod ArrayElided
pub mod RwElided
mod Tests
use concurrencia.Base.{ℕ, ◌≡◌, ◌⊎◌, Bool, true, Option, none, some, List, ◌++◌}
use concurrencia.Worker.{Action}

pub data Program : Type 0 where
  array_spinlock rw_spinlock array_elided rw_elided : Program

unfoldable pub main : Program → List Action → Option ℕ
main array_spinlock = ArraySpinlock.main
main rw_spinlock = RwSpinlock.main
main array_elided = ArrayElided.main
main rw_elided = RwElided.main

-- Thread `i` is between the return of `lock` and the call of `unlock`.
unfoldable pub in_critical : Program → List Action → ℕ → Bool
in_critical array_spinlock = ArraySpinlock.in_critical
in_critical rw_spinlock = RwSpinlock.in_critical
in_critical array_elided = ArrayElided.in_critical
in_critical rw_elided = RwElided.in_critical

-- What the programs print as the expected value.
abbrev pub expected : Program → ℕ
expected array_spinlock = ArraySpinlock.expected
expected rw_spinlock = RwSpinlock.expected
expected array_elided = ArrayElided.expected
expected rw_elided = RwElided.expected

-- Each of the four programs, after any steps of its threads, has printed nothing or the expected
-- count, and its threads can be run on so that it prints the expected count.
pub spinlock_prints :
    (p : Program) (actions : List Action)
    → ((main p actions ≡ none) ⊎ (main p actions ≡ some (expected p)))
      × ((rest : List Action) × (main p (actions ++ rest) ≡ some (expected p)))
unfolding main
spinlock_prints array_spinlock = ArraySpinlock.main-prints
spinlock_prints rw_spinlock = RwSpinlock.main-prints
spinlock_prints array_elided = ArrayElided.main-prints
spinlock_prints rw_elided = RwElided.main-prints

-- In each of the four programs, after any steps of its threads, two threads that are both between
-- the return of `lock` and the call of `unlock` are the same thread.
pub spinlock_excludes :
    (p : Program) (actions : List Action) (i j : ℕ)
    → in_critical p actions i ≡ true
    → in_critical p actions j ≡ true
    → i ≡ j
unfolding in_critical
spinlock_excludes array_spinlock = ArraySpinlock.critical-excludes
spinlock_excludes rw_spinlock = RwSpinlock.critical-excludes
spinlock_excludes array_elided = ArrayElided.critical-excludes
spinlock_excludes rw_elided = RwElided.critical-excludes
