-- ===== src/Race/Counter.antt =====
-- intro/counter.c
use concurrencia.Base.{ℕ, ◌/◌, ◌≤◌, ◌≡◌, refl, ◌⊎◌, Option, none, some, List, arith}
use concurrencia.Worker.{Action}
use concurrencia.Race.Defs
use concurrencia.Race.Defs.{Turn}
use concurrencia.Race.Bounds.{prints_between}
use concurrencia.Race.Outcomes.{ends_in_turn, ends_in_step, in_turn, in_step, repeated}

abbrev pub num_threads : ℕ
num_threads = 2

abbrev pub max_count : ℕ
max_count = 10000000

-- One step of a thread that runs `count`: `counter += 1` is a load and a store.
unfoldable pub count : ℕ → Defs.Place → ℕ → Turn
count = Defs.add_turn 1 (max_count / num_threads)

-- What `main` prints as the counter, if the threads have all ended after the given steps.
unfoldable pub main : List Action → Option ℕ
main = Defs.main 1 num_threads (max_count / num_threads)

pub main-between :
    (actions : List Action)
    → (main actions ≡ none) ⊎ ((v : ℕ) × (main actions ≡ some v) × (1 ≤ v) × (v ≤ max_count))
unfolding main
main-between actions =
    prints_between (1) num_threads (max_count / num_threads) actions (omega arith) (omega arith)

pub main-loses_nothing : (actions : List Action) × (main actions ≡ some max_count)
unfolding main
main-loses_nothing = (
  repeated (max_count / num_threads) in_turn,
  ends_in_turn (1) (max_count / num_threads) max_count refl,
)

pub main-loses_half : (actions : List Action) × (main actions ≡ some (max_count / 2))
unfolding main
main-loses_half = (
  repeated (max_count / num_threads) in_step,
  ends_in_step (1) (max_count / num_threads) (max_count / 2) refl,
)
