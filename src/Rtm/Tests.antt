-- ===== src/Rtm/Tests.antt =====
-- A run with a committed transaction, an aborted one, and the fallback to the lock.
use concurrencia.Base.{
  ℕ, ◌≡◌, refl, ◌⊎◌, true, none, some, List, [], ◌∷◌, ◌++◌, ltb, ◌%◌, ◌/◌, ◌^◌, ◌+◌, ◌*◌,
}
use concurrencia.Worker
use concurrencia.Worker.{Action}
use concurrencia.Atomic.Defs.{commit}
use concurrencia.Rtm.Defs
use concurrencia.Rtm.Defs.{Intrinsics, played}
use concurrencia.Rtm.Results
use concurrencia.Rtm.Plain
use concurrencia.Rtm.{plain, array, main, in_lock, expected, rtm_prints, rtm_excludes}

-- The status words of the processor: the code is in the top byte, bit 1 allows a retry.
abbrev processor : Intrinsics
processor = record {
  code = λ s. s / 2 ^ 24 % 2 ^ 8;
  retry = λ s. ltb 0 (s / 2 % 2);
  explicit = 255 * 2 ^ 24 + 1;
}

-- Thread 2 commits a round. Thread 1 is aborted with status 7, for a capacity, and takes the lock.
abbrev begun : List Action
begun =
    record { thread = 2; choice = 0 }
    ∷ record { thread = 2; choice = 0 }
    ∷ record { thread = 1; choice = 0 }
    ∷ record { thread = 1; choice = 9 }
    ∷ record { thread = 1; choice = 0 }
    ∷ record { thread = 1; choice = 0 }
    ∷ []

one_round :
    (Defs.run processor Worker.plain 4 5 begun (Defs.create processor Worker.plain 4 5)).counter 0
    ≡ 1
unfolding Defs.run Defs.tick Defs.count Defs.turn Defs.attempt commit
one_round = refl

holder : in_lock plain processor begun 1 ≡ true
unfolding in_lock Plain.in_lock Results.in_lock Defs.run Defs.tick Defs.count Defs.turn Defs.attempt
    commit
holder = refl

-- Every transaction is aborted by a conflict, with a status that allows a retry.
abbrev always_conflict : ℕ → ℕ
always_conflict k = 7

rtm_prints_example :
    ((main array processor begun ≡ none) ⊎ (main array processor begun ≡ some (expected array)))
    × ((schedule : List ℕ) × (main array processor (begun ++ played always_conflict schedule)
          ≡ some (expected array)))
rtm_prints_example = rtm_prints array processor begun always_conflict

rtm_excludes_example : ◌≡◌ {A = ℕ} 1 1
rtm_excludes_example = rtm_excludes plain processor begun 1 1 holder holder
