-- ===== src/RwLock/Invariant.antt =====
-- What holds after any steps of the threads: the word counts the readers and the writer, a writer
-- that is alone is alone, and the counter is what the writers have stored.
use concurrencia.Base.{
  ℕ, ◌+◌, ◌*◌, ◌^◌, ◌≤◌, ◌<◌, ◌≡◌, refl, sym, inl, inr, ◌≢◌, List, [], ◌∷◌, arith, assign,
  assign_self, assign_other, total, total-assign, total_const, weight-le-total,
  weight-weight-le-total, total-le, ltb, Bool-cases, eq-cases, lt-cases, ltb→lt,
}
use concurrencia.Worker.{Action}
use concurrencia.RwLock.Defs.{Place, Thread, System, Turn, count, tick, run, create}
use concurrencia.RwLock.Steps.{
  reads, writes, writes_alone, Fits, stores, turn-word, turn-barred, turn-alone, turn-Fits,
  turn-counter, turn-stores,
}

abbrev pub reader : Thread → ℕ
reader w = reads w.place

abbrev pub writer : Thread → ℕ
writer w = writes w.place

abbrev pub tally : Thread → ℕ
tally w = stores w.place w.round

pub reader-le : (w : Thread) → reader w ≤ 1
reader-le w = ground arith

pub alone-writes : (p : Place) → writes_alone p ≤ writes p
alone-writes p = ground arith

pub reads-writes : (p : Place) → reads p + writes p ≤ 1
reads-writes p = ground arith

-- Only a writer that is alone sees a change of the counter.
Fits-counter :
    (max k k' : ℕ) (p : Place) (r : ℕ)
    → (writes_alone p ≡ 1 → k' ≡ k)
    → Fits max k p r
    → Fits max k' p r
Fits-counter max k k' p r same f = ground arith

module _ (n max : ℕ) where
  pub record Good (s : System) : Type 0 where
    pub word : s.rw_lock ≡ total reader n s.threads + 2 ^ 31 * total writer n s.threads
    pub one_writer : total writer n s.threads ≤ 1
    pub alone :
        (i : ℕ) → i < n → writes_alone (s.threads i).place ≡ 1 → total reader n s.threads ≡ 0
    pub fits : (i : ℕ) → i < n → Fits max s.counter (s.threads i).place (s.threads i).round
    pub counted : s.counter ≡ total tally n s.threads

  abbrev pub first : System
  first = create n max

  create-Good : Good first
  create-Good = record {
    word =
        rw
          (
            total_const reader n 0 first.threads (λ i h. refl),
            total_const writer n 0 first.threads (λ i h. refl),
          )
          (omega arith);
    one_writer = rw (total_const writer n 0 first.threads (λ i h. refl)) (omega arith);
    alone = λ i h a. absurd (ground arith);
    fits = λ i h. omega arith;
    counted = sym (rw (total_const tally n 0 first.threads (λ i h. refl)) (omega arith));
  }

module _ (n max : ℕ) (few : n + 1 < 2 ^ 31) where
  module _ (s : System) (g : Good n max s) (i : ℕ) (h : i < n) where
    open g use {word, one_writer, alone, fits, counted}

    abbrev result : Turn
    result = count n max s (s.threads i)

    abbrev next : System
    next = record {
      rw_lock = result.rw_lock;
      counter = result.counter;
      threads = assign s.threads i result.thread;
    }

    all_readers : total reader n s.threads ≤ n
    all_readers = total-le reader reader-le n s.threads

    mine-le :
        (reads (s.threads i).place ≤ total reader n s.threads)
        × (writes (s.threads i).place ≤ total writer n s.threads)
    mine-le = (weight-le-total reader n s.threads i h, weight-le-total writer n s.threads i h)

    alone-word : (j : ℕ) → j < n → writes_alone (s.threads j).place ≡ 1 → s.rw_lock ≡ 2 ^ 31
    alone-word j k a = omega (
      arith,
      word,
      one_writer,
      alone j k a,
      alone-writes (s.threads j).place,
      weight-le-total writer n s.threads j k,
    )

    new_readers :
        total reader n next.threads + reads (s.threads i).place
        ≡ total reader n s.threads + reads result.thread.place
    new_readers = total-assign reader n s.threads i result.thread h

    new_writers :
        total writer n next.threads + writes (s.threads i).place
        ≡ total writer n s.threads + writes result.thread.place
    new_writers = total-assign writer n s.threads i result.thread h

    next_word : next.rw_lock ≡ total reader n next.threads + 2 ^ 31 * total writer n next.threads
    unfolding count
    next_word = omega (
      arith,
      word,
      new_readers,
      new_writers,
      turn-word n max s.rw_lock s.counter (s.threads i).round (s.threads i).place (fits i h)
          (omega (arith, word, mine-le.0, mine-le.1)) (omega (arith, word, one_writer, all_readers))
          (omega (arith, word, all_readers)) (alone-word i h),
    )

    -- While the top bit is set, readers and writers only go.
    barred :
        2 ^ 31 ≤ s.rw_lock
        → (total reader n next.threads ≤ total reader n s.threads)
          × (total writer n next.threads ≤ total writer n s.threads)
    unfolding count
    barred set =
        let less =
          turn-barred n max s.rw_lock s.counter (s.threads i).round (s.threads i).place (fits i h)
            set in
        (omega (arith, new_readers, less.0), omega (arith, new_writers, less.1))

    next_one : total writer n next.threads ≤ 1
    unfolding count
    next_one = elim (lt-cases s.rw_lock (2 ^ 31)) [
      | inl clear ↦
          let small : writes result.thread.place ≤ 1 =
            omega (arith, reads-writes result.thread.place) in
          omega (arith, word, new_writers, small)
      | inr set ↦ omega (arith, one_writer, (barred set).1)
    ]

    next_alone :
        (j : ℕ) → j < n → writes_alone (next.threads j).place ≡ 1 → total reader n next.threads ≡ 0
    unfolding count
    next_alone j k a = elim (eq-cases i j) [
      | inl e ↦
          elim (turn-alone n max s.rw_lock s.counter (s.threads i).round (s.threads i).place
            (rw (← e, assign_self s.threads i result.thread) at a)) [
              | inl before ↦
                  omega (arith, alone i h before, (barred (omega (arith, alone-word i h before))).0)
              | inr (none_left, taken) ↦ omega (
                arith,
                word,
                all_readers,
                few,
                mine-le.1,
                (barred (omega (arith, word, mine-le.1))).0,
              )
            ]
      | inr d ↦
          let before : writes_alone (s.threads j).place ≡ 1 =
            rw (assign_other s.threads i j result.thread d) at a in
          omega (arith, alone j k before, (barred (omega (arith, alone-word j k before))).0)
    ]

    -- While another thread writes alone, this one leaves the counter alone.
    unseen :
        (j : ℕ) → j < n → i ≢ j → writes_alone (s.threads j).place ≡ 1 → result.counter ≡ s.counter
    unfolding count
    unseen j k d a =
        turn-counter n max s.rw_lock s.counter (s.threads i).round (s.threads i).place (
          omega (
            arith,
            one_writer,
            alone-writes (s.threads i).place,
            alone-writes (s.threads j).place,
            weight-weight-le-total writer n s.threads i j h k d,
          ))

    next-Fits :
        (j : ℕ) → j < n → Fits max next.counter (next.threads j).place (next.threads j).round
    unfolding count
    next-Fits j k = elim (eq-cases i j) [
      | inl e ↦
          rw (← e, assign_self s.threads i result.thread)
            (turn-Fits n max s.rw_lock s.counter (s.threads i).round (s.threads i).place (fits i h))
      | inr d ↦ rw (assign_other s.threads i j result.thread d) (
          Fits-counter max s.counter result.counter (s.threads j).place (s.threads j).round
            (unseen j k d) (fits j k))
    ]

    next_counted : next.counter ≡ total tally n next.threads
    unfolding count
    next_counted = omega (
      arith,
      counted,
      total-assign tally n s.threads i result.thread h,
      turn-stores n max s.rw_lock s.counter (s.threads i).round (s.threads i).place (fits i h),
    )

    next-Good : Good n max next
    next-Good = record {
      word = next_word;
      one_writer = next_one;
      alone = next_alone;
      fits = next-Fits;
      counted = next_counted;
    }

  pub tick-Good : (s : System) (a : Action) → Good n max s → Good n max (tick n max s a)
  unfolding tick
  tick-Good s a g = elim (Bool-cases (ltb a.thread n)) [
    | inl p ↦ rw p (next-Good s g a.thread (ltb→lt _ _ p))
    | inr p ↦ rw p g
  ]

  run-Good : (actions : List Action) (s : System) → Good n max s → Good n max (run n max actions s)
  unfolding run
  run-Good [] s g = g
  run-Good (a ∷ rest) s g = run-Good rest (tick n max s a) (tick-Good s a g)

  pub after : (actions : List Action) → Good n max (run n max actions (first n max))
  after actions = run-Good actions (first n max) (create-Good n max)
