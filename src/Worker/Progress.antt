-- ===== src/Worker/Progress.antt =====
-- While a thread has a round to do, some thread can come nearer to the end of the program.
use concurrencia.Base.{
  ℕ, ◌<◌, ◌≡◌, refl, ◌⊎◌, inl, inr, true, false, not, arith, assign, total, total-assign,
  search_below, Bool-cases, lt→ltb,
}
use concurrencia.Lock.{is_inside, is_busy, Lock, Laws}
use concurrencia.Worker.Defs.{Task, Worker, Action, System, lock_turn, tick, is_done, all_done}
use concurrencia.Worker.Invariant.{places, places-assign, Good}
use concurrencia.Worker.Cost.{
  cost, cost-worker_turn, worker_turn_busy, cost-lock_turn_same, lock_turn-place,
}
use concurrencia.Worker.Ended.{all_done-intro, busy_not_done, inside_not_done, busy_below}

module _ (n max : ℕ) (l : Lock) (task : Task) (laws : Laws n l) where
  open task use {cell, report}
  open l use {Shared, Local, step, phase}
  open laws use {exclusive, measure, advance}

  abbrev pub GoodNow : System l → Type 0
  GoodNow = Good n max l task laws

  pub work : System l → ℕ
  work s = total (cost n max l task laws) n s.workers

  -- How far a running call is from a return.
  pub calls : System l → ℕ
  calls s = measure s.lock (places s.workers)

  -- The end comes nearer, or the return of a call.
  abbrev pub Nearer : System l → System l → Type 0
  Nearer s s' = (work s' < work s) ⊎ ((work s' ≡ work s) × (calls s' < calls s))

  work-tick :
      (s : System l) (i c : ℕ)
      → GoodNow s
      → i < n
      → (s.workers i).round < max
      → (is_busy (phase (s.workers i).place) ≡ true
          → is_busy (phase (step i c s.lock (s.workers i).place).1) ≡ false)
      → work (tick l task n max s (record { thread = i; choice = c })) < work s
  unfolding tick work
  work-tick s i c g h below returns = rw (lt→ltb _ _ h) (
      omega (
        arith,
        total-assign (cost n max l task laws) n s.workers i _ h,
        cost-worker_turn n max l task laws i c s.lock s.counter (s.workers i) (g.shapes i h) below
            returns,
      ))

  lock_turn-lock :
      (i c : ℕ) (s : Shared) (k : ℕ → ℕ) (w : Worker Local)
      → (lock_turn l i c s k w).lock ≡ (step i c s w.place).0
  unfolding lock_turn
  lock_turn-lock i c s k w = refl

  -- A step within a call costs nothing, and is a step of the lock.
  calls-tick :
      (s : System l) (i c : ℕ)
      → i < n
      → is_busy (phase (s.workers i).place) ≡ true
      → is_busy (phase (step i c s.lock (s.workers i).place).1) ≡ true
      → measure
          (step i c s.lock (s.workers i).place).0
          (assign (places s.workers) i (step i c s.lock (s.workers i).place).1)
        < calls s
      → Nearer s (tick l task n max s (record { thread = i; choice = c }))
  unfolding tick work calls
  calls-tick s i c h b b' falls =
      rw (lt→ltb _ _ h, worker_turn_busy n max l task laws i c s.lock s.counter (s.workers i) b)
        (inr (
          omega (
            arith,
            total-assign (cost n max l task laws) n s.workers i
                (lock_turn l i c s.lock s.counter (s.workers i)).worker h,
            cost-lock_turn_same n max l task laws i c s.lock s.counter (s.workers i) b b',
          ),
          nearer,
        ))
    where
      nearer :
          measure
            (lock_turn l i c s.lock s.counter (s.workers i)).lock
            (places (assign s.workers i (lock_turn l i c s.lock s.counter (s.workers i)).worker))
          < measure s.lock (places s.workers)
      nearer =
          rw
            (
              places-assign s.workers i (lock_turn l i c s.lock s.counter (s.workers i)).worker,
              lock_turn-place n max l task laws i c s.lock s.counter (s.workers i),
              lock_turn-lock i c s.lock s.counter (s.workers i),
            )
            falls

  -- While a thread has a round to do, some thread can make a step that counts.
  abbrev pub Useful : System l → Type 0
  Useful s = (a : Action) × Nearer s (tick l task n max s a)

  unfinished :
      (s : System l) (j : ℕ)
      → GoodNow s
      → j < n
      → ((i : ℕ) → i < n → is_inside (phase (s.workers i).place) ≡ false)
      → is_done l task n max (s.workers j) ≡ false
      → Useful s
  unfolding calls
  unfinished s j g h nobody d = elim (Bool-cases (is_busy (phase (s.workers j).place))) [
    | inl b ↦
        let (i, c, k, busy, nearer) = advance j s.lock (places s.workers) h g.lock_inv nobody b in
        (record { thread = i; choice = c }, called i c k busy nearer)
    | inr b ↦ (
      record { thread = j; choice = 0 },
      inl (
          work-tick s j 0 g h (busy_below n max l task s.counter (s.workers j) d (g.shapes j h))
            (λ e. cc (b, e))),
    )
  ]
    where
      called :
          (i c : ℕ)
          → i < n
          → is_busy (phase (s.workers i).place) ≡ true
          → (is_busy (phase (step i c s.lock (s.workers i).place).1) ≡ false)
            ⊎ (measure
                  (step i c s.lock (s.workers i).place).0
                  (assign (places s.workers) i (step i c s.lock (s.workers i).place).1)
                < calls s)
          → Nearer s (tick l task n max s (record { thread = i; choice = c }))
      called i c k busy nearer =
          elim (Bool-cases (is_busy (phase (step i c s.lock (s.workers i).place).1))) [
            | inr returns ↦ inl (
                work-tick s i c g k
                  (busy_below n max l task s.counter (s.workers i)
                    (busy_not_done n max l task (s.workers i) busy) (g.shapes i k))
                  (λ _. returns))
            | inl goes_on ↦ elim nearer [
              | inl returns ↦ absurd (cc (goes_on, returns))
              | inr falls ↦ calls-tick s i c k busy goes_on falls
            ]
          ]

  pub next_action :
      (s : System l) → GoodNow s → Useful s ⊎ (all_done l task n max n s.workers ≡ true)
  next_action s g =
      elim (search_below (λ (w : Worker Local). is_inside (phase w.place)) n s.workers) [
        | inl (i, h, p) ↦ inl (
          record { thread = i; choice = 0 },
          inl (
              work-tick s i 0 g h
                (busy_below n max l task s.counter (s.workers i)
                  (inside_not_done n max l task (s.workers i) p) (g.shapes i h))
                (λ b. ground (arith, p, b))),
        )
        | inr nobody ↦
            elim (search_below (λ (w : Worker Local). not (is_done l task n max w)) n s.workers) [
              | inl (j, h, p) ↦ inl (unfinished s j g h nobody (ground arith))
              | inr all ↦ inr (
                  all_done-intro n max l task n s.workers
                    (λ i h. let e = all i h in ground (arith, e)))
            ]
      ]
