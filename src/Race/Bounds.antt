-- ===== src/Race/Bounds.antt =====
-- Without a lock no update is invented, and not all are lost.
use concurrencia.Base.{
  ℕ, zero, suc, ◌+◌, ◌*◌, ◌≤◌, ◌<◌, ◌≡◌, refl, ap, ◌⊎◌, inl, inr, true, none, some, List, [], ◌∷◌,
  arith, assign, assign_self, assign_other, total, total-assign, total_const, ltb, Bool-cases,
  eq-cases, lt-cases, ltb→lt,
}
use concurrencia.Worker.{Action}
use concurrencia.Race.Defs.{
  Place, ready, loaded, Thread, System, add_turn, turn, tick, run, create, all_done, join, main,
}

-- What the thread has added, were nothing lost.
abbrev added : ℕ → Thread → ℕ
added amount t = t.round * amount

-- What a thread has loaded was once the counter; a thread before its load has rounds to make or none.
abbrev Fits : ℕ → ℕ → ℕ → Place → ℕ → Type 0
Fits most max amount ready r = r ≤ max
Fits most max amount (loaded v) r = (v ≤ most) × (r < max)

module _ (amount n max : ℕ) where
  record Good (s : System) : Type 0 where
    at_most : s.counter ≤ total (added amount) n s.threads
    fits :
        (i : ℕ)
        → i < n
        → Fits (total (added amount) n s.threads) max amount (s.threads i).place (s.threads i).round
    at_least : (i : ℕ) → i < n → 0 < (s.threads i).round → amount ≤ s.counter

  create-Good : Good (create amount n max)
  create-Good = record {
    at_most = omega arith;
    fits = λ i h. omega arith;
    at_least = λ i h p. absurd (omega arith);
  }

  Fits-mono : (a b : ℕ) (p : Place) (r : ℕ) → a ≤ b → Fits a max amount p r → Fits b max amount p r
  Fits-mono a b p r h f = ground arith

  -- One step, by itself.
  turn_lem :
      (k most : ℕ) (p : Place) (r : ℕ)
      → k ≤ most
      → Fits most max amount p r
      → (let t = add_turn amount max k p r in
          ((t.counter ≡ k)
            × (t.thread.round ≡ r)
            × Fits most max amount t.thread.place t.thread.round)
          ⊎ ((t.counter ≤ most + amount)
              × (amount ≤ t.counter)
              × (t.thread ≡ record { place = ready; round = suc r })
              × (suc r ≤ max)))
  unfolding add_turn
  turn_lem k most ready r h f = elim (Bool-cases (ltb r max)) [
    | inl p ↦ rw p (inl (refl, refl, (h, ltb→lt _ _ p)))
    | inr p ↦ rw p (inl (refl, refl, f))
  ]
  turn_lem k most (loaded v) r h f = inr (omega arith, omega arith, refl, f.1)

  module _ (s : System) (g : Good s) (i : ℕ) (h : i < n) where
    open g use {at_most, fits, at_least}

    abbrev t : Thread
    t = (turn amount n max s i).thread

    abbrev next : System
    next = record { counter = (turn amount n max s i).counter; threads = assign s.threads i t }

    abbrev sum : (ℕ → Thread) → ℕ
    sum = total (added amount) n

    exchange : sum next.threads + added amount (s.threads i) ≡ sum s.threads + added amount t
    exchange = total-assign (added amount) n s.threads i t h

    others :
        (most : ℕ)
        → sum s.threads ≤ most
        → Fits most max amount t.place t.round
        → (j : ℕ) → j < n
        → Fits most max amount (next.threads j).place (next.threads j).round
    others most more own j k = elim (eq-cases i j) [
      | inl d ↦ rw (← d, assign_self s.threads i t) own
      | inr d ↦ rw (assign_other s.threads i j t d) (Fits-mono _ _ _ _ more (fits j k))
    ]

    loads-Good :
        next.counter ≡ s.counter
        → t.round ≡ (s.threads i).round
        → Fits (sum s.threads) max amount t.place t.round
        → Good next
    loads-Good same round own = record {
      at_most = rw (same, level) at_most;
      fits = rw level (others (sum s.threads) (omega arith) own);
      at_least = λ j k p. rw same (elim (eq-cases i j) [
        | inl d ↦ at_least i h (rw round at (rw (assign_self s.threads i t) at (rw (← d) at p)))
        | inr d ↦ at_least j k (rw (assign_other s.threads i j t d) at p)
      ]);
    }
      where
        level : sum next.threads ≡ sum s.threads
        level = omega (arith, exchange, ap (λ (r : ℕ). r * amount) round)

    stores-Good :
        next.counter ≤ sum s.threads + amount
        → amount ≤ next.counter
        → t ≡ record { place = ready; round = suc (s.threads i).round }
        → suc (s.threads i).round ≤ max
        → Good next
    stores-Good few enough e room = record {
      at_most = omega (arith, grown);
      fits = others (sum next.threads) (omega (arith, grown)) (rw e room);
      at_least = λ j k p. enough;
    }
      where
        grown : sum next.threads ≡ sum s.threads + amount
        grown = omega (arith, exchange, ap (added amount) e)

    next-Good : Good next
    unfolding turn
    next-Good = elim (turn_lem s.counter (sum s.threads) _ _ at_most (fits i h)) [
      | inl (a, b, c) ↦ loads-Good a b c
      | inr (a, b, c, d) ↦ stores-Good a b c d
    ]

  tick-Good : (s : System) (a : Action) → Good s → Good (tick amount n max s a)
  unfolding tick
  tick-Good s a g = elim (Bool-cases (ltb a.thread n)) [
    | inl p ↦ rw p (next-Good s g a.thread (ltb→lt _ _ p))
    | inr p ↦ rw p g
  ]

  run-Good : (actions : List Action) (s : System) → Good s → Good (run amount n max actions s)
  unfolding run
  run-Good [] s g = g
  run-Good (a ∷ rest) s g = run-Good rest (tick amount n max s a) (tick-Good s a g)

  all_done-elim :
      (m : ℕ) (ts : ℕ → Thread)
      → all_done amount n max m ts ≡ true
      → (i : ℕ) → i < m
      → max ≤ (ts i).round
  unfolding all_done
  all_done-elim zero ts h i k = absurd (omega arith)
  all_done-elim (suc m) ts h i k = elim (lt-cases i m) [
    | inl below ↦ all_done-elim m ts (ground (arith, h)) i below
    | inr last ↦ let e : i ≡ m = omega arith in rw e (ground (arith, h))
  ]

  -- What is printed lies between one addition and all of them.
  pub prints_between :
      (actions : List Action)
      → 0 < n
      → 0 < max
      → (main amount n max actions ≡ none)
        ⊎ ((v : ℕ) × (main amount n max actions ≡ some v) × (amount ≤ v) × (v ≤ n * (max * amount)))
  unfolding main join
  prints_between actions some_thread some_round =
      elim (Bool-cases (all_done amount n max n s.threads)) [
        | inl d ↦ inr (s.counter, rw d refl, least d, most d)
        | inr d ↦ inl (rw d)
      ]
    where
      s : System
      s = run amount n max actions (create amount n max)

      g : Good s
      g = run-Good actions (create amount n max) create-Good

      least : all_done amount n max n s.threads ≡ true → amount ≤ s.counter
      least d = g.at_least 0 some_thread (omega (arith, all_done-elim n s.threads d 0 some_thread))

      full : all_done amount n max n s.threads ≡ true → (i : ℕ) → i < n → (s.threads i).round ≡ max
      full d i h = ground (arith, all_done-elim n s.threads d i h, g.fits i h)

      most : all_done amount n max n s.threads ≡ true → s.counter ≤ n * (max * amount)
      most d = omega (
        arith,
        g.at_most,
        total_const (added amount) n (max * amount) s.threads
            (λ i h. ap (λ (r : ℕ). r * amount) (full d i h)),
      )
