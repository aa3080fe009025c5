-- ===== src/Peterson/Tests.antt =====
-- A run in which both threads want to enter, and the theorems at it.
use concurrencia.Base.{ℕ, ◌≡◌, refl, ◌⊎◌, true, false, none, some, List, [], ◌∷◌, ◌++◌}
use concurrencia.Worker.{Action}
use concurrencia.Peterson.Defs
use concurrencia.Peterson.Defs.{max_count}
use concurrencia.Peterson.Results
use concurrencia.Peterson.{main, in_critical, peterson_prints, peterson_excludes}

abbrev step_of : ℕ → Action
step_of i = record { thread = i; choice = 0 }

-- Both threads set their states; thread 1 is the last to store `turn`, so thread 0 enters.
abbrev contended : List Action
contended =
    step_of 0
    ∷ step_of 1
    ∷ step_of 0
    ∷ step_of 1
    ∷ step_of 1
    ∷ step_of 1
    ∷ step_of 0
    ∷ step_of 0
    ∷ []

waits : in_critical contended 1 ≡ false
unfolding in_critical Results.in_critical Defs.run Defs.tick Defs.count Defs.move
waits = refl

enters : in_critical contended 0 ≡ true
unfolding in_critical Results.in_critical Defs.run Defs.tick Defs.count Defs.move
enters = refl

peterson_prints_example :
    ((main contended ≡ none) ⊎ (main contended ≡ some max_count))
    × ((rest : List Action) × (main (contended ++ rest) ≡ some max_count))
peterson_prints_example = peterson_prints contended

peterson_excludes_example : ◌≡◌ {A = ℕ} 0 0
peterson_excludes_example = peterson_excludes contended 0 0 enters enters
