-- ===== src/Rtm/Invariant.antt =====
-- What holds after any steps of the threads: one thread at most holds the lock, and the counter is
-- what the rounds have stored, in transactions or under the lock.
use concurrencia.Base.{
  ℕ, ◌+◌, ◌≤◌, ◌<◌, ◌≡◌, refl, sym, inl, inr, ◌≢◌, List, [], ◌∷◌, ◌++◌, arith, assign, assign_self,
  assign_other, total, total-assign, total_const, weight-le-total, weight-weight-le-total, ltb,
  Bool-cases, eq-cases, ltb→lt,
}
use concurrencia.Worker.{Task, Action, hits}
use concurrencia.Rtm.Defs.{
  Intrinsics, Place, top, trying, locking, held, loaded, stored, releasing, Thread, System, Turn,
  count, tick, run, create,
}
use concurrencia.Rtm.Steps.{
  owns, free, Fits, stores, turn-owns, turn_counter, turn-Fits, turn-stores,
}

-- Only a thread that holds the lock sees a change of the counter.
Fits-counter :
    (max : ℕ) (cell : ℕ → ℕ) (k k' : ℕ → ℕ) (p : Place) (r : ℕ)
    → (owns p ≡ 1 → k' ≡ k)
    → Fits max cell k p r
    → Fits max cell k' p r
Fits-counter max cell k k' (loaded v) r same h = rw (same refl) h
Fits-counter max cell k k' top r same h = h
Fits-counter max cell k k' (trying _ _) r same h = h
Fits-counter max cell k k' locking r same h = h
Fits-counter max cell k k' held r same h = h
Fits-counter max cell k k' stored r same h = h
Fits-counter max cell k k' releasing r same h = h

owns-le : (p : Place) → owns p ≤ 1
owns-le p = ground arith

module _ (intrinsics : Intrinsics) (task : Task) (n max : ℕ) where
  open task use {cell, writes, report}

  abbrev pub weight : Thread → ℕ
  weight w = owns w.place

  abbrev pub tally : ℕ → Thread → ℕ
  tally j w = stores task j w.place w.round

  pub record Good (s : System) : Type 0 where
    pub one : total weight n s.threads + free s.mutex ≡ 1
    pub fits : (i : ℕ) → i < n → Fits max cell s.counter (s.threads i).place (s.threads i).round
    pub counted : (j : ℕ) → s.counter j ≡ total (tally j) n s.threads

  abbrev pub first : System
  first = create intrinsics task n max

  create-Good : Good first
  unfolding hits
  create-Good = record {
    one = rw (total_const weight n 0 first.threads (λ i h. refl)) (omega arith);
    fits = λ i h. omega arith;
    counted = λ j. sym (rw (total_const (tally j) n 0 first.threads (λ i h. refl)) (omega arith));
  }

  module _ (s : System) (g : Good s) (i c : ℕ) (h : i < n) where
    open g use {one, fits, counted}

    abbrev result : Turn
    result = count intrinsics task n max c s (s.threads i)

    abbrev next : System
    next = record {
      mutex = result.mutex;
      counter = result.counter;
      threads = assign s.threads i result.thread;
    }

    small : owns (s.threads i).place + free s.mutex ≤ 1
    small = omega (arith, one, weight-le-total weight n s.threads i h)

    next_one : total weight n next.threads + free next.mutex ≡ 1
    unfolding count
    next_one = omega (
      arith,
      one,
      total-assign weight n s.threads i result.thread h,
      turn-owns intrinsics task n max c s.mutex s.counter (s.threads i).round (s.threads i).place
          small,
    )

    -- While another thread holds the lock, this one leaves the counter alone.
    unseen : (j : ℕ) → j < n → i ≢ j → owns (s.threads j).place ≡ 1 → result.counter ≡ s.counter
    unfolding count
    unseen j k d taken =
        turn_counter intrinsics task n max c s.mutex s.counter (s.threads i).round
          (s.threads i).place
          (omega (arith, one, taken, weight-weight-le-total weight n s.threads i j h k d))
          (omega (arith, one, taken, weight-le-total weight n s.threads j k))

    next-Fits :
        (j : ℕ) → j < n → Fits max cell next.counter (next.threads j).place (next.threads j).round
    unfolding count
    next-Fits j k = elim (eq-cases i j) [
      | inl e ↦
          rw (← e, assign_self s.threads i result.thread)
            (turn-Fits intrinsics task n max c s.mutex s.counter (s.threads i).round
              (s.threads i).place (fits i h))
      | inr d ↦ rw (assign_other s.threads i j result.thread d) (
          Fits-counter max cell s.counter result.counter (s.threads j).place (s.threads j).round
            (unseen j k d) (fits j k))
    ]

    next_counted : (j : ℕ) → next.counter j ≡ total (tally j) n next.threads
    unfolding count
    next_counted j = omega (
      arith,
      counted j,
      total-assign (tally j) n s.threads i result.thread h,
      turn-stores intrinsics task n max c s.mutex s.counter (s.threads i).round (s.threads i).place
          j (fits i h),
    )

    next-Good : Good next
    next-Good = record { one = next_one; fits = next-Fits; counted = next_counted }

  pub tick-Good : (s : System) (a : Action) → Good s → Good (tick intrinsics task n max s a)
  unfolding tick
  tick-Good s a g = elim (Bool-cases (ltb a.thread n)) [
    | inl p ↦ rw p (next-Good s g a.thread a.choice (ltb→lt _ _ p))
    | inr p ↦ rw p g
  ]

  run-Good :
      (actions : List Action) (s : System) → Good s → Good (run intrinsics task n max actions s)
  unfolding run
  run-Good [] s g = g
  run-Good (a ∷ rest) s g = run-Good rest (tick intrinsics task n max s a) (tick-Good s a g)

  pub after : (actions : List Action) → Good (run intrinsics task n max actions first)
  after actions = run-Good actions first create-Good

  pub run-append :
      (xs ys : List Action) (s : System)
      → run intrinsics task n max (xs ++ ys) s
        ≡ run intrinsics task n max ys (run intrinsics task n max xs s)
  unfolding run
  run-append [] ys s = refl
  run-append (x ∷ xs) ys s = run-append xs ys (tick intrinsics task n max s x)
