-- ===== src/ArrayLock/VariableSize.antt =====
-- spinlocks/array_lock_variable_size.c
pub mod Defs
mod Cells
mod Invariant
mod Steps
mod Leaving
pub mod Results
use concurrencia.Base.{
  ℕ, ◌/◌, ◌≡◌, ◌⊎◌, Bool, true, false, ◌&&◌, Option, none, some, List, [], ◌∷◌, ◌++◌, ◌≢◌, ◌∙◌,
  refl, arith, ◌==◌, if◌then◌else◌,
}
use concurrencia.Worker
use concurrencia.Worker.{plain, Worker, Turn, Action}
use Defs.{num_threads, Memory, Local, index, step, lock, Fits}
use Cells.{index-cell}

abbrev pub max_count : ℕ
max_count = 10000000

-- Four steps of a thread: the loop's test, and `lock` if its cell is set.
abbrev pub enters : ℕ → List Action
enters i =
    record { thread = i; choice = 0 }
    ∷ record { thread = i; choice = 0 }
    ∷ record { thread = i; choice = 0 }
    ∷ record { thread = i; choice = 0 }
    ∷ []

-- `padding` is the number that `main` reads from its argument.
module _ (padding : ℕ) (malloc : ℕ → ℕ) where
  -- One step of a thread that runs `count`.
  unfoldable pub count : ℕ → ℕ → Memory → (ℕ → ℕ) → Worker Local → Turn (lock padding malloc)
  count = Worker.worker_turn (lock padding malloc) plain num_threads (max_count / num_threads)

  -- What `main` prints as the counter, if the threads have all ended after the given steps. With a
  -- padding of 0 it prints how it is used, and exits.
  unfoldable pub main : List Action → Option ℕ
  main actions =
      if padding == 0
      then none
      else Worker.main (lock padding malloc) plain num_threads (max_count / num_threads) actions

  -- Thread `i` is between the return of `lock` and the call of `unlock`.
  unfoldable pub in_critical : List Action → ℕ → Bool
  in_critical actions i =
      if padding == 0
      then false
      else Worker.in_critical (lock padding malloc) plain num_threads (max_count / num_threads)
          actions i

  module _ (fits : Fits padding) where
    not_zero : (padding == 0) ≡ false
    not_zero = ground (arith, fits.some_padding)

    first_index : index padding 0 ≡ 0
    first_index = index-cell padding fits 0 ∙ omega arith

    second_index : index padding 1 ≡ padding
    second_index = index-cell padding fits 1 ∙ omega arith

    -- Threads 0 and 1 call `lock` one after the other, and both return.
    pub both_enter :
        malloc padding ≢ 0
        → (in_critical (enters 0 ++ enters 1) 0 ≡ true)
          × (in_critical (enters 0 ++ enters 1) 1 ≡ true)
    unfolding in_critical Worker.in_critical Worker.run Worker.tick Worker.create Worker.worker_turn
        Worker.loop_turn Worker.lock_turn Worker.body_turn step
    both_enter set =
        let apart : (0 == padding) ≡ false = ground (arith, fits.some_padding) in
        let is_set : (malloc padding == 0) ≡ false = ground (arith, set) in
        rw (not_zero, first_index, second_index, apart, is_set) (refl, refl)
