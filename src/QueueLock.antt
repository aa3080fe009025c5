-- ===== src/QueueLock.antt =====
-- The spin locks whose waiting threads stand in a queue of nodes: spinlocks/clh_spinlock.c and
-- spinlocks/clh_spinlock_yield.c, a child for each file.
pub mod Clh
pub mod ClhYield
mod Tests
use concurrencia.Base.{ℕ, ◌<◌, ◌≡◌, ◌≢◌, ◌⊎◌, Bool, true, Option, none, some, List, ◌++◌}
use concurrencia.Worker.{Action}
use concurrencia.QueueLock.Clh.Defs.{Malloc, Fresh}

pub data Program : Type 0 where
  clh_spinlock clh_spinlock_yield : Program

unfoldable pub main : Program → Malloc → List Action → Option ℕ
main clh_spinlock = Clh.main
main clh_spinlock_yield = ClhYield.main

unfoldable pub in_critical : Program → Malloc → List Action → ℕ → Bool
in_critical clh_spinlock = Clh.in_critical
in_critical clh_spinlock_yield = ClhYield.in_critical

-- What the programs print as the expected value.
abbrev pub expected : Program → ℕ
expected clh_spinlock = Clh.max_count
expected clh_spinlock_yield = ClhYield.max_count

-- With a malloc that gives each thread memory of its own, each of the two programs, after any steps of
-- its threads, has printed nothing or the expected count, and its threads can be run on so that it
-- prints the expected count.
pub clh_prints :
    (p : Program) (malloc : Malloc) (actions : List Action)
    → Fresh malloc
    → ((main p malloc actions ≡ none) ⊎ (main p malloc actions ≡ some (expected p)))
      × ((rest : List Action) × (main p malloc (actions ++ rest) ≡ some (expected p)))
unfolding main
clh_prints clh_spinlock malloc actions f = Clh.main-prints malloc f actions
clh_prints clh_spinlock_yield malloc actions f = ClhYield.main-prints malloc f actions

-- In each of the two programs, with a malloc that gives each thread memory of its own, two threads
-- that are in the critical section after the same steps are the same thread.
pub clh_excludes :
    (p : Program) (malloc : Malloc) (actions : List Action) (i j : ℕ)
    → Fresh malloc
    → in_critical p malloc actions i ≡ true
    → in_critical p malloc actions j ≡ true
    → i ≡ j
unfolding in_critical
clh_excludes clh_spinlock malloc actions i j f = Clh.critical-excludes malloc f actions i j
clh_excludes clh_spinlock_yield malloc actions i j f =
    ClhYield.critical-excludes malloc f actions i j

-- In spinlocks/clh_spinlock.c, with a malloc that gives each thread memory of its own, the
-- variables `node` of two threads never hold the same node, though each `unlock` takes over the node of
-- the thread before.
pub clh_nodes_apart :
    (malloc : Malloc) (actions : List Action) (i j : ℕ)
    → Fresh malloc
    → i < Clh.num_threads
    → j < Clh.num_threads
    → i ≢ j
    → Clh.node_of malloc actions i ≢ Clh.node_of malloc actions j
clh_nodes_apart malloc actions i j f h k d = Clh.nodes_apart malloc f actions i j h k d
