-- ===== src/ArrayLock.antt =====
-- The spin locks whose waiting threads each watch a cell of an array: spinlocks/array_lock.c and
-- spinlocks/array_lock_variable_size.c, a child for each file.
pub mod VariableSize
pub mod Static
mod Tests
use concurrencia.Base.{ℕ, ◌≡◌, ◌≢◌, ◌⊎◌, true, none, some, List, ◌++◌}
use concurrencia.Worker.{Action}
use concurrencia.ArrayLock.VariableSize.Defs
use concurrencia.ArrayLock.VariableSize.Defs.{Memory, Fits}

-- spinlocks/array_lock.c, after any steps of its threads, has printed nothing or the expected count, and
-- its threads can be run on so that it prints the expected count.
pub array_prints :
    (actions : List Action)
    → ((Static.main actions ≡ none) ⊎ (Static.main actions ≡ some Static.max_count))
      × ((rest : List Action) × (Static.main (actions ++ rest) ≡ some Static.max_count))
array_prints = Static.main-prints

-- In spinlocks/array_lock.c two threads that are in the critical section after the same steps are the
-- same thread.
pub array_excludes :
    (actions : List Action) (i j : ℕ)
    → Static.in_critical actions i ≡ true
    → Static.in_critical actions j ≡ true
    → i ≡ j
array_excludes = Static.critical-excludes

-- In spinlocks/array_lock_variable_size.c, with any padding of 1 to 2^14, if the memory that `malloc`
-- gives happens to hold a byte that is not 0 at the second thread's cell, two threads can come into the
-- critical section together.
pub array_overlaps :
    (padding : ℕ) (malloc : ℕ → ℕ)
    → Fits padding
    → malloc padding ≢ 0
    → (actions : List Action) × (VariableSize.in_critical padding malloc actions 0 ≡ true)
      × (VariableSize.in_critical padding malloc actions 1 ≡ true)
array_overlaps padding malloc fits set =
    let (a, b) = VariableSize.both_enter padding malloc fits set in
    (VariableSize.enters 0 ++ VariableSize.enters 1, a, b)

-- In every memory and at every place, `lock` and `unlock` of spinlocks/array_lock.c do what those of
-- spinlocks/array_lock_variable_size.c do with a padding of 32.
pub array_locks_agree :
    (i c : ℕ) (s : Memory) (p : Static.Local)
    → ((Static.step i c s p).0 ≡ (Defs.step 32 i c s (Static.view p)).0)
      × (Static.view (Static.step i c s p).1 ≡ (Defs.step 32 i c s (Static.view p)).1)
array_locks_agree = Static.step-view
