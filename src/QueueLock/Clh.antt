-- ===== src/QueueLock/Clh.antt =====
-- spinlocks/clh_spinlock.c
pub mod Defs
mod Invariant
mod Steps
pub mod Results
use concurrencia.Base.{ℕ, ◌/◌, ◌<◌, ◌≡◌, ◌≢◌, ◌⊎◌, Bool, true, Option, none, some, List, ◌++◌}
use concurrencia.Worker
use concurrencia.Worker.{plain, Worker, Turn, Action}
use Defs.{Malloc, Fresh, Memory, Local, lock, variable}
use Invariant.{variables_apart}
use Results.{lock_laws, laws-Inv}

abbrev pub num_threads : ℕ
num_threads = 4

abbrev pub max_count : ℕ
max_count = 10000000

module _ (malloc : Malloc) where
  -- One step of a thread that runs `count`.
  unfoldable pub count : ℕ → ℕ → Memory → (ℕ → ℕ) → Worker Local → Turn (lock malloc)
  count = Worker.worker_turn (lock malloc) plain num_threads (max_count / num_threads)

  -- What `main` prints as the counter, if the threads have all ended after the given steps.
  unfoldable pub main : List Action → Option ℕ
  main = Worker.main (lock malloc) plain num_threads (max_count / num_threads)

  -- Thread `i` is between the return of `lock` and the call of `unlock`.
  unfoldable pub in_critical : List Action → ℕ → Bool
  in_critical = Worker.in_critical (lock malloc) plain num_threads (max_count / num_threads)

  abbrev reached : List Action → Worker.System (lock malloc)
  reached actions =
      Worker.run (lock malloc) plain num_threads (max_count / num_threads) actions
        (Worker.create (lock malloc) plain num_threads (max_count / num_threads))

  -- The value of thread `i`'s variable `node` of `count` after the given steps.
  unfoldable pub node_of : List Action → ℕ → ℕ
  node_of actions i = variable ((reached actions).workers i).place

  module _ (fresh : Fresh malloc) where
    pub main-prints :
        (actions : List Action)
        → ((main actions ≡ none) ⊎ (main actions ≡ some max_count))
          × ((rest : List Action) × (main (actions ++ rest) ≡ some max_count))
    unfolding main
    main-prints =
        Worker.prints_plain num_threads (max_count / num_threads) (lock malloc)
          (lock_laws num_threads malloc fresh)

    pub critical-excludes :
        (actions : List Action) (i j : ℕ)
        → in_critical actions i ≡ true
        → in_critical actions j ≡ true
        → i ≡ j
    unfolding in_critical
    critical-excludes =
        Worker.excludes num_threads (max_count / num_threads) (lock malloc) plain
          (lock_laws num_threads malloc fresh)

    pub nodes_apart :
        (actions : List Action) (i j : ℕ)
        → i < num_threads
        → j < num_threads
        → i ≢ j
        → node_of actions i ≢ node_of actions j
    unfolding node_of
    nodes_apart actions i j h k d =
        variables_apart num_threads i h (reached actions).lock
          (λ k. ((reached actions).workers k).place)
          (laws-Inv num_threads malloc fresh (reached actions).lock
            (λ k. ((reached actions).workers k).place)
            (Worker.reached num_threads (max_count / num_threads) (lock malloc) plain
              (lock_laws num_threads malloc fresh) actions))
          j k d
