-- ===== src/Race/CounterLocal.antt =====
-- intro/counter_local.c
use concurrencia.Base.{
  ℕ, zero, suc, ◌+◌, ◌*◌, ◌/◌, ◌≤◌, ◌≡◌, ◌⊎◌, inl, inr, Option, none, some, List, arith,
}
use concurrencia.Worker.{Action}
use concurrencia.Race.Defs
use concurrencia.Race.Defs.{Turn}
use concurrencia.Race.Bounds.{prints_between}
use concurrencia.Race.Outcomes.{ends_in_turn, ends_in_step, in_turn, in_step, repeated}

abbrev pub num_threads : ℕ
num_threads = 2

abbrev pub max_count : ℕ
max_count = 10000000

-- `for (i=0; i < max; i++) local_counter += 1;`, from the round `i` on: the rounds left, and
-- `local_counter`.
unfoldable pub local_loop : ℕ → ℕ → ℕ
local_loop zero local_counter = local_counter
local_loop (suc left) local_counter = local_loop left (local_counter + 1)

local_loop-add : (left k : ℕ) → local_loop left k ≡ k + left
unfolding local_loop
local_loop-add zero k = omega arith
local_loop-add (suc left) k = omega (arith, local_loop-add left (k + 1))

-- `local_counter` at the end of the loop.
unfoldable pub local_counter : ℕ
local_counter = local_loop (max_count / num_threads) 0

local_counter-eq : local_counter ≡ max_count / num_threads
unfolding local_counter
local_counter-eq = omega (arith, local_loop-add (max_count / num_threads) 0)

-- One step of a thread that has run the loop of `count`: the load or the store of
-- `counter += local_counter`, once.
unfoldable pub count : ℕ → Defs.Place → ℕ → Turn
count = Defs.add_turn local_counter 1

-- What `main` prints as the counter, if the threads have all ended after the given steps.
unfoldable pub main : List Action → Option ℕ
main = Defs.main local_counter num_threads 1

pub main-between :
    (actions : List Action)
    → (main actions ≡ none)
      ⊎ ((v : ℕ) × (main actions ≡ some v) × (max_count / num_threads ≤ v) × (v ≤ max_count))
unfolding main
main-between actions =
    widen (prints_between local_counter num_threads 1 actions (omega arith) (omega arith))
  where
    widen :
        (Defs.main local_counter num_threads 1 actions ≡ none)
          ⊎ ((v : ℕ) × (Defs.main local_counter num_threads 1 actions ≡ some v)
              × (local_counter ≤ v)
              × (v ≤ num_threads * (1 * local_counter)))
        → (Defs.main local_counter num_threads 1 actions ≡ none)
          ⊎ ((v : ℕ) × (Defs.main local_counter num_threads 1 actions ≡ some v)
              × (max_count / num_threads ≤ v)
              × (v ≤ max_count))
    widen (inl e) = inl e
    widen (inr (v, e, a, b)) =
        inr (v, e, omega (arith, local_counter-eq), omega (arith, local_counter-eq))

pub main-loses_nothing : (actions : List Action) × (main actions ≡ some max_count)
unfolding main
main-loses_nothing = (
  repeated (1) in_turn,
  ends_in_turn (local_counter) (1) max_count (omega (arith, local_counter-eq)),
)

pub main-loses_half : (actions : List Action) × (main actions ≡ some (max_count / 2))
unfolding main
main-loses_half = (
  repeated (1) in_step,
  ends_in_step (local_counter) (1) (max_count / 2) (omega (arith, local_counter-eq)),
)
