-- ===== src/Race/Tests.antt =====
-- The theorems on counting with no lock, at a program and at a run.
use concurrencia.Base.{ℕ, ◌/◌, ◌≤◌, ◌≡◌, refl, ◌⊎◌, none, some, List, [], ◌∷◌}
use concurrencia.Worker.{Action}
use concurrencia.Race.Defs
use concurrencia.Race.{counter, main, max_count, least, race_between, race_outcomes}

abbrev go : ℕ → Action
go i = record { thread = i; choice = 0 }

-- Both threads load 0 and store 1.
one_lost : Defs.main 1 2 1 (go 0 ∷ go 1 ∷ go 0 ∷ go 1 ∷ []) ≡ some 1
unfolding Defs.main Defs.run Defs.tick Defs.turn Defs.add_turn Defs.join Defs.all_done
one_lost = refl

abbrev both_load : List Action
both_load = go 0 ∷ go 1 ∷ []

race_between_example :
    (main counter both_load ≡ none)
    ⊎ ((v : ℕ) × (main counter both_load ≡ some v) × (least counter ≤ v) × (v ≤ max_count))
race_between_example = race_between counter both_load

race_outcomes_example :
    ((actions : List Action) × (main counter actions ≡ some max_count))
    × ((actions : List Action) × (main counter actions ≡ some (max_count / 2)))
race_outcomes_example = race_outcomes counter
