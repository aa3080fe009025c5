-- ===== src/Stack/Results.antt =====
-- What holds after any steps of the threads.
use concurrencia.Base.{
  ℕ, suc, ◌+◌, ◌^◌, ◌<◌, ◌≡◌, refl, ◌∙◌, ◌≢◌, inl, inr, some, List, [], ◌∷◌, arith, length, ltb,
  if◌then◌else◌, total_const, Bool-cases, ltb→lt,
}
use concurrencia.Stack.Defs.{Event, count, System, settle, tick, run, history, create}
use concurrencia.Stack.Nodes.{Lists, replay, replay-append, replay_none}
use concurrencia.Stack.Steps.{turn-Effect}
use concurrencia.Stack.Fitting.{turn-Fits}
use concurrencia.Stack.Invariant.{owner, promise, GoodAt, filled}
use concurrencia.Stack.Kept.{Effect-After}

-- What the program relies on: `malloc` gives a new node each time, and not NULL.
pub record Allocates (malloc : ℕ → ℕ) : Type 0 where
  pub nonnull : (k : ℕ) → malloc k ≢ 0
  pub distinct : (j k : ℕ) → malloc j ≡ malloc k → j ≡ k

abbrev pub nothing : Lists
nothing w = []

module _ (malloc : ℕ → ℕ) (allocates : Allocates malloc) (n elems : ℕ) where
  open allocates use {nonnull, distinct}

  abbrev pub Now : ℕ → Lists → System malloc n elems → Type 0
  Now k ls s = GoodAt malloc n k ls s.memory s.threads

  abbrev pub first : System malloc n elems
  first = create malloc n elems

  pub create-Good : Now 0 nothing first
  create-Good = record {
    chains = λ w. refl;
    once = λ a. omega (arith, total_const (owner a) n 0 first.threads (λ i h. refl));
    fresh = λ j h. omega (arith, total_const (owner (malloc j)) n 0 first.threads (λ i h. refl));
    young = λ w. omega arith;
    kept = omega (arith, total_const promise n 0 first.threads (λ i h. refl));
    fits = λ i h. tt;
  }

  older : (k : ℕ) (ls : Lists) (s : System malloc n elems) → Now k ls s → Now (suc k) ls s
  older k ls s g = record {
    chains = g.chains;
    once = g.once;
    fresh = g.fresh;
    young = λ w. omega (arith, g.young w);
    kept = g.kept;
    fits = g.fits;
  }

  -- The events of one step.
  abbrev events_of : ℕ → System malloc n elems → List Event
  events_of i s = if ltb i n then (count malloc n elems i s).events else []

  tick_After :
      (k : ℕ) (ls : Lists) (s : System malloc n elems) (i : ℕ)
      → k + 1 < 2 ^ 64
      → Now k ls s
      → (ls' : Lists) × ((replay (events_of i s) ls ≡ some ls')
          × Now (suc k) ls' (tick malloc n elems s i))
  unfolding tick
  tick_After k ls s i room g = elim (Bool-cases (ltb i n)) [
    | inl p ↦
        let h : i < n = ltb→lt i n p in
        rw p (
          Effect-After malloc n k ls s.memory s.threads g i h
            (settle malloc n elems (s.threads i).round (s.threads i).place
              (count malloc n elems i s).place)
            (count malloc n elems i s).memory (count malloc n elems i s).events room distinct
            (unfold count in
              turn-Effect malloc n elems i (s.threads i).round (s.threads i).place s.memory
                (g.fits i h))
            (unfold count in
              turn-Fits malloc nonnull n elems i (s.threads i).round (s.threads i).place s.memory
                (filled malloc n k ls s.memory s.threads g i h (s.threads i)) (g.fits i h)))
    | inr p ↦ rw p (ls, (replay_none ls, older k ls s g))
  ]

  -- A run does to the lists what its events say, one after another.
  pub run_After :
      (actions : List ℕ) (k : ℕ) (ls : Lists) (s : System malloc n elems)
      → k + length actions + 1 < 2 ^ 64
      → Now k ls s
      → (ls' : Lists) × ((replay (history malloc n elems actions s) ls ≡ some ls')
          × Now (k + length actions) ls' (run malloc n elems actions s))
  unfolding run history
  run_After [] k ls s room g = (ls, (replay_none ls, rw (add_none k) g))
    where
      add_none : (k : ℕ) → k + 0 ≡ k
      add_none k = omega arith
  run_After (i ∷ rest) k ls s room g =
      let (ls', (done, g')) = tick_After k ls s i (omega arith) g in
      let (ls'', (done', g'')) =
        run_After rest (suc k) ls' (tick malloc n elems s i) (omega arith) g' in
      (
        ls'',
        (
          replay-append (events_of i s) (history malloc n elems rest (tick malloc n elems s i)) ls
                ls' done
              ∙ done',
          rw (shift (length rest)) g'',
        ),
      )
    where
      shift : (l : ℕ) → k + suc l ≡ suc k + l
      shift l = omega arith

  from_zero : (l : ℕ) → 0 + l ≡ l
  from_zero l = omega arith

  pub reached_After :
      (actions : List ℕ)
      → length actions + 1 < 2 ^ 64
      → (ls : Lists) × ((replay (history malloc n elems actions first) nothing ≡ some ls)
          × Now (length actions) ls (run malloc n elems actions first))
  reached_After actions room =
      rw (from_zero (length actions)) at
        (run_After actions 0 nothing first (omega arith) create-Good)
