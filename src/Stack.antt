-- ===== src/Stack.antt =====
-- hardware/stack_cas_tagged.c: the concurrent stack whose heads count their changes.
mod Defs
mod Nodes
mod Steps
mod Fitting
mod Invariant
mod Kept
mod Results
mod Ending
mod Completion
mod Tests
use concurrencia.Base.{
  ℕ, ◌+◌, ◌^◌, ◌<◌, ◌≡◌, refl, ◌≢◌, inl, inr, Bool, true, false, some, List, [], ◌∷◌, ◌++◌, arith,
  length, ap, total_const, weight-le-total, weight-weight-le-total, eq-cases,
}
use concurrencia.Stack.Defs.{
  Which, stack, free, top, error, Place, Thread, System, run, history, create,
}
use concurrencia.Stack.Nodes.{Chain, Chain-nil, Lists, count, replay}
use concurrencia.Stack.Steps.{owned, promised}
use concurrencia.Stack.Invariant.{owner, promise, Good}
use concurrencia.Stack.Results
use concurrencia.Stack.Results.{Allocates, nothing, reached_After}
use concurrencia.Stack.Ending.{is_done}
use concurrencia.Stack.Completion
use concurrencia.Stack.Completion.{all_done, all_done-elim}

abbrev pub is_error : Place → Bool
is_error error = true
is_error _ = false

empty_head : (xs : List ℕ) (next : ℕ → ℕ) (a : ℕ) → length xs ≡ 0 → Chain next a xs → a ≡ 0
empty_head [] next a h ch = ch
empty_head (x ∷ xs) next a h ch = absurd (omega arith)

module _ (malloc : ℕ → ℕ) (allocates : Allocates malloc) (n elems : ℕ) (actions : List ℕ) where
  -- The program after the given steps, and what its operations did.
  unfoldable pub reached : System malloc n elems
  reached = run malloc n elems actions (create malloc n elems)

  unfoldable pub happened : List Defs.Event
  happened = history malloc n elems actions (create malloc n elems)

  invariant :
      length actions + 1 < 2 ^ 64
      → (ls : Lists) × ((replay happened nothing ≡ some ls)
          × Results.Now malloc allocates n elems (length actions) ls reached)
  unfolding reached happened
  invariant room = reached_After malloc allocates n elems actions room

  -- With a malloc that gives new nodes and not NULL, in a run of fewer than 2 ^ 64 - 1 steps the
  -- pushes, the pops and the pops that found nothing, each at the step at which it takes effect,
  -- are a run of two lists: a pop returns the node last pushed, or NULL if the list is empty. The
  -- nodes that the heads lead to are those lists.
  pub stack_linearizes :
      length actions + 1 < 2 ^ 64
      → (ls : Lists) × ((replay happened nothing ≡ some ls)
          × ((w : Which) → Chain reached.memory.next (reached.memory.head w).node (ls w)))
  stack_linearizes room = let (ls, (e, g)) = invariant room in (ls, (e, g.chains))

  -- With a malloc that gives new nodes and not NULL, in a run of fewer than 2 ^ 64 - 1 steps a node
  -- that one thread has for itself is in neither of the lists that the operations have left, and no
  -- other thread has it.
  pub stack_owns_once :
      length actions + 1 < 2 ^ 64
      → (ls : Lists) × ((replay happened nothing ≡ some ls)
          × ((i a : ℕ)
              → i < n
              → owned a (reached.threads i).place ≡ 1
              → (count a (ls stack) + count a (ls free) ≡ 0)
                × ((j : ℕ) → j < n → owned a (reached.threads j).place ≡ 1 → i ≡ j)))
  stack_owns_once room =
      let (ls, (e, g)) = invariant room in
      (
        ls,
        (
          e,
          λ i a h own. (
            omega (arith, g.once a, own, weight-le-total (owner a) n reached.threads i h),
            λ j k own'. elim (eq-cases i j) [
              | inl s ↦ s
              | inr d ↦ absurd (
                  omega (
                    arith,
                    g.once a,
                    own,
                    own',
                    weight-weight-le-total (owner a) n reached.threads i j h k d,
                  ))
            ],
          ),
        ),
      )

  -- With a malloc that gives new nodes and not NULL, in a run of fewer than 2 ^ 64 - 1 steps no
  -- thread comes to the report that the stack is empty.
  pub stack_never_errs :
      (i : ℕ) → length actions + 1 < 2 ^ 64 → i < n → is_error (reached.threads i).place ≡ false
  stack_never_errs i room h = let (ls, (e, g)) = invariant room in ground (arith, g.fits i h)

  -- With a malloc that gives new nodes and not NULL, after fewer than 2 ^ 64 - 1 steps, when all
  -- threads have ended, the stack is empty.
  pub stack_drains :
      length actions + 1 < 2 ^ 64
      → all_done malloc n elems n reached.threads ≡ true
      → (reached.memory.head stack).node ≡ 0
  stack_drains room done =
      let (ls, (e, g)) = invariant room in
      empty_head (ls stack) reached.memory.next (reached.memory.head stack).node
        (omega (
          arith,
          g.kept,
          total_const promise n 0 reached.threads (λ i h.
              done_promise (reached.threads i)
                (all_done-elim malloc n elems n reached.threads done i h)),
        ))
        (g.chains stack)
    where
      done_promise : (w : Thread) → is_done elems w ≡ true → promise w ≡ 0
      done_promise w d = ground arith

  -- With a malloc that gives new nodes and not NULL, after any steps the threads can be run on
  -- until all have ended.
  pub stack_completes :
      (rest : List ℕ) × (all_done malloc n elems n
          (run malloc n elems (actions ++ rest) (create malloc n elems)).threads
        ≡ true)
  stack_completes = Completion.completes malloc n elems actions
