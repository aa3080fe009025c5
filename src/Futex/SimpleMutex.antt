-- ===== src/Futex/SimpleMutex.antt =====
-- futex/simple_mutex.c
pub mod Defs
mod Invariant
mod Results
use concurrencia.Base.{
  ℕ, ◌+◌, ◌-◌, ◌/◌, ◌≤◌, ◌<◌, ◌≡◌, refl, sym, ◌⊎◌, inl, inr, Bool, true, false, ◌&&◌, not, Option,
  none, some, List, ◌++◌, arith, assign, assign_self, assign_other, total, total-assign,
  total_const, total_pos, weight-le-total, ltb, ◌==◌, if◌then◌else◌, Bool-cases, eq-cases, lt-cases,
  lt→ltb, not_lt,
}
use concurrencia.Worker
use concurrencia.Worker.{plain, Worker, Turn, Action}
use concurrencia.Futex.Calls.{Kernel, Documented}
use Defs.{SimpleFutex, Local, lock}
use Results.{lock_laws}

abbrev pub num_threads : ℕ
num_threads = 4

abbrev pub max_count : ℕ
max_count = 10000000

module _ (kernel : Kernel) where
  -- One step of a thread that runs `count`.
  unfoldable pub count : ℕ → ℕ → SimpleFutex kernel → (ℕ → ℕ) → Worker Local → Turn (lock kernel)
  count = Worker.worker_turn (lock kernel) plain num_threads (max_count / num_threads)

  -- What `main` prints as the counter, if the threads have all ended after the given steps.
  unfoldable pub main : List Action → Option ℕ
  main = Worker.main (lock kernel) plain num_threads (max_count / num_threads)

  -- Thread `i` is between the return of `lock` and the call of `unlock`.
  unfoldable pub in_critical : List Action → ℕ → Bool
  in_critical = Worker.in_critical (lock kernel) plain num_threads (max_count / num_threads)

  module _ (documented : Documented kernel) where
    pub main-prints :
        (actions : List Action)
        → ((main actions ≡ none) ⊎ (main actions ≡ some max_count))
          × ((rest : List Action) × (main (actions ++ rest) ≡ some max_count))
    unfolding main
    main-prints =
        Worker.prints_plain num_threads (max_count / num_threads) (lock kernel)
          (lock_laws kernel num_threads documented)

    pub critical-excludes :
        (actions : List Action) (i j : ℕ)
        → in_critical actions i ≡ true
        → in_critical actions j ≡ true
        → i ≡ j
    unfolding in_critical
    critical-excludes =
        Worker.excludes num_threads (max_count / num_threads) (lock kernel) plain
          (lock_laws kernel num_threads documented)
