-- ===== src/Worker/Results.antt =====
-- What the program does, whatever its lock: one thread at a time in the critical section, and the
-- counter that it prints.
use mathlib.Core.Path.{fun_ext}
use concurrencia.Base.{
  ℕ, zero, suc, ◌*◌, ◌<◌, ◌≡◌, refl, ◌∙◌, ◌⊎◌, inl, inr, true, none, some, List, [], ◌∷◌, ◌++◌,
  arith, total_const, Bool-cases, ltb→lt,
}
use concurrencia.Lock.{Phase, inside, is_inside, Lock, Laws}
use concurrencia.Worker.Defs.{
  Task, plain, Action, System, tick, run, create, all_done, join, main, in_critical,
}
use concurrencia.Worker.Shape.{hits, tally}
use concurrencia.Worker.Invariant.{places, create-Good, tick-Good, run-Good}
use concurrencia.Worker.Ended.{first_done, rest_done, run-append, all_done-elim, done_tally}
use concurrencia.Worker.Progress.{GoodNow, work, calls, next_action}

-- The counter of a program that has ended: each thread has made all its rounds.
abbrev pub expected : ℕ → ℕ → Task → ℕ → ℕ
expected n max task j = n * hits task j max

is_inside_phase : (p : Phase) → is_inside p ≡ true → p ≡ inside
is_inside_phase p h = ground arith

module _ (n max : ℕ) (l : Lock) (task : Task) (laws : Laws n l) where
  open task use {cell, report}
  open l use {Shared, Local, step, phase}
  open laws use {exclusive, measure, advance}

  done_counter :
      (s : System l)
      → GoodNow n max l task laws s
      → all_done l task n max n s.workers ≡ true
      → s.counter ≡ expected n max task
  done_counter s g d = fun_ext (λ j.
      g.counted j
      ∙ total_const (tally task j) n (hits task j max) s.workers (λ i h.
        done_tally n max l task s.counter (s.workers i)
          (all_done-elim n max l task n s.workers d i h) (g.shapes i h) j))

  join_done :
      (s : System l)
      → GoodNow n max l task laws s
      → (join l task n max s ≡ none) ⊎ (join l task n max s ≡ some (report (expected n max task)))
  unfolding join
  join_done s g = elim (Bool-cases (all_done l task n max n s.workers)) [
    | inl e ↦ inr (rw (e, done_counter s g e))
    | inr e ↦ inl (rw e)
  ]

  completes_within :
      (fuel tries : ℕ) (s : System l)
      → GoodNow n max l task laws s
      → work n max l task laws s < fuel
      → calls n max l task laws s < tries
      → (rest : List Action) × (join l task n max (run l task n max rest s)
          ≡ some (report (expected n max task)))
  unfolding run join
  completes_within zero tries s g h k = absurd (omega arith)
  completes_within (suc fuel) zero s g h k = absurd (omega arith)
  completes_within (suc fuel) (suc tries) s g h k = elim (next_action n max l task laws s g) [
    | inl (a, inl falls) ↦
        let (rest, e) =
          completes_within fuel (suc (calls n max l task laws (tick l task n max s a)))
            (tick l task n max s a) (tick-Good n max l task laws s a g) (omega arith)
            (omega arith) in
        (a ∷ rest, e)
    | inl (a, inr (same, falls)) ↦
        let (rest, e) =
          completes_within (suc fuel) tries (tick l task n max s a)
            (tick-Good n max l task laws s a g) (omega arith) (omega arith) in
        (a ∷ rest, e)
    | inr d ↦ ([], rw (d, done_counter s g d))
  ]

  after :
      (actions : List Action)
      → GoodNow n max l task laws (run l task n max actions (create l task n max))
  after actions =
      run-Good n max l task laws actions (create l task n max) (create-Good n max l task laws)

  -- What the program prints: nothing yet, or the product of its threads and their rounds; and the
  -- threads can be run on so that it prints this.
  pub prints :
      (actions : List Action)
      → ((main l task n max actions ≡ none)
          ⊎ (main l task n max actions ≡ some (report (expected n max task))))
        × ((rest : List Action) × (main l task n max (actions ++ rest)
              ≡ some (report (expected n max task))))
  unfolding main
  prints actions =
      let (rest, e) =
        completes_within
          (suc (work n max l task laws (run l task n max actions (create l task n max))))
          (suc (calls n max l task laws (run l task n max actions (create l task n max)))) _
          (after actions) (omega arith) (omega arith) in
      (
        join_done _ (after actions),
        (rest, rw (run-append n max l task actions rest (create l task n max)) e),
      )

  -- Two threads in the critical section are one.
  pub excludes :
      (actions : List Action) (i j : ℕ)
      → in_critical l task n max actions i ≡ true
      → in_critical l task n max actions j ≡ true
      → i ≡ j
  unfolding in_critical
  excludes actions i j p q =
      exclusive i j _ _ (ltb→lt i n (first_done _ _ p)) (ltb→lt j n (first_done _ _ q))
        (after actions).lock_inv (is_inside_phase _ (rest_done _ _ p))
        (is_inside_phase _ (rest_done _ _ q))

  -- The lock's invariant holds after any steps.
  pub reached :
      (actions : List Action)
      → laws.Inv
          (run l task n max actions (create l task n max)).lock
          (places (run l task n max actions (create l task n max)).workers)
  reached actions = (after actions).lock_inv

-- The loop that adds 1 to one counter stores once in each round.
hits-plain : (r : ℕ) → hits plain 0 r ≡ r
unfolding hits
hits-plain zero = refl
hits-plain (suc r) = omega (arith, hits-plain r)

-- What a program prints that adds 1 to one counter in each round.
pub prints_plain :
    (n max : ℕ) (l : Lock)
    → Laws n l
    → (actions : List Action)
    → ((main l plain n max actions ≡ none) ⊎ (main l plain n max actions ≡ some (n * max)))
      × ((rest : List Action) × (main l plain n max (actions ++ rest) ≡ some (n * max)))
prints_plain n max l laws actions = rw (hits-plain max) at (prints n max l plain laws actions)

pub expected-plain : (n max : ℕ) → plain.report (expected n max plain) ≡ n * max
expected-plain n max = rw (hits-plain max)
