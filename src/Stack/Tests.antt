-- ===== src/Stack/Tests.antt =====
-- A run in which a stale head is refused, and the theorems at it.
use concurrencia.Base.{ℕ, suc, ◌+◌, ◌<◌, ◌≡◌, refl, true, false, some, List, [], ◌∷◌, ◌++◌, arith}
use concurrencia.Stack.Defs
use concurrencia.Stack.Defs.{Which, stack, free, run, create}
use concurrencia.Stack.Nodes.{Chain, Lists, count, replay}
use concurrencia.Stack.Results.{Allocates, nothing}
use concurrencia.Stack.Completion.{all_done}
use concurrencia.Stack.Steps.{owned}
use concurrencia.Stack.{
  reached, happened, is_error, stack_linearizes, stack_owns_once, stack_never_errs, stack_drains,
  stack_completes,
}

-- An allocator that gives the addresses from 1 on.
abbrev counting : ℕ → ℕ
counting k = suc k

counting-Allocates : Allocates counting
counting-Allocates = record { nonnull = λ k. omega arith; distinct = λ j k e. omega arith }

-- Thread 0 makes a round: it allocates node 1, pushes it, pops it and puts it on the free list.
abbrev round : List ℕ
round = 0 ∷ 0 ∷ 0 ∷ 0 ∷ 0 ∷ 0 ∷ 0 ∷ 0 ∷ 0 ∷ 0 ∷ 0 ∷ 0 ∷ 0 ∷ 0 ∷ 0 ∷ []

-- Thread 1 looks at the free list while thread 0 takes node 1 from it.
abbrev racing : List ℕ
racing = round ++ (0 ∷ 1 ∷ 1 ∷ 0 ∷ 0 ∷ 0 ∷ 1 ∷ 1 ∷ [])

taken : owned 1 ((reached counting counting-Allocates 4 10 racing).threads 0).place ≡ 1
unfolding reached Defs.run Defs.tick Defs.count Defs.turn Defs.pop Defs.push
taken = refl

ended : all_done counting 1 1 1 (reached counting counting-Allocates 1 1 (round)).threads ≡ true
unfolding reached Defs.run Defs.tick Defs.count Defs.turn Defs.pop Defs.push all_done
ended = refl

stack_linearizes_example :
    (ls : Lists) × ((replay (happened counting counting-Allocates 4 10 racing) nothing ≡ some ls)
      × ((w : Which)
          → Chain
              (reached counting counting-Allocates 4 10 racing).memory.next
              ((reached counting counting-Allocates 4 10 racing).memory.head w).node
              (ls w)))
stack_linearizes_example = stack_linearizes counting counting-Allocates 4 10 racing (omega arith)

stack_owns_once_example :
    (ls : Lists) × ((replay (happened counting counting-Allocates 4 10 racing) nothing ≡ some ls)
      × ((i a : ℕ)
          → i < 4
          → owned a ((reached counting counting-Allocates 4 10 racing).threads i).place ≡ 1
          → (count a (ls stack) + count a (ls free) ≡ 0)
            × ((j : ℕ)
                → j < 4
                → owned a ((reached counting counting-Allocates 4 10 racing).threads j).place ≡ 1
                → i ≡ j)))
stack_owns_once_example = stack_owns_once counting counting-Allocates 4 10 racing (omega arith)

stack_never_errs_example :
    is_error ((reached counting counting-Allocates 4 10 racing).threads 1).place ≡ false
stack_never_errs_example =
    stack_never_errs counting counting-Allocates 4 10 racing 1 (omega arith) (omega arith)

stack_drains_example : ((reached counting counting-Allocates 1 1 round).memory.head stack).node ≡ 0
stack_drains_example = stack_drains counting counting-Allocates 1 1 round (omega arith) ended

stack_completes_example :
    (rest : List ℕ) × (all_done counting 4 10 4
        (run counting 4 10 (racing ++ rest) (create counting 4 10)).threads
      ≡ true)
stack_completes_example = stack_completes counting counting-Allocates 4 10 racing
