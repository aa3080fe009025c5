-- ===== src/Worker/Invariant.antt =====
-- What holds of the whole program after any steps of its threads.
use mathlib.Core.Path.{fun_ext}
use concurrencia.Base.{
  ℕ, ◌<◌, ◌≡◌, refl, sym, ◌≢◌, inl, inr, List, [], ◌∷◌, arith, assign, assign_self, assign_same,
  assign_other, total, total-assign, total_const, ltb, Bool-cases, eq-cases,
}
use concurrencia.Lock.{Lock, Laws}
use concurrencia.Worker.Defs.{Task, Worker, Action, System, worker_turn, tick, run, create}
use concurrencia.Worker.Shape.{hits, Shaped, tally, Shape-counter, Effect, worker_turn-Effect}

abbrev pub places : {L : Type 0} → (ℕ → Worker L) → ℕ → L
places ws i = (ws i).place

pub places-assign :
    {L : Type 0} (ws : ℕ → Worker L) (i : ℕ) (w : Worker L)
    → places (assign ws i w) ≡ assign (places ws) i w.place
places-assign ws i w = fun_ext (λ j. ground arith)

module _ (n max : ℕ) (l : Lock) (task : Task) (laws : Laws n l) where
  open l use {Shared, Local, shared, local, step, phase}
  open laws use {Inv, init, begins, keep, exclusive, orderly}
  open task use {cell}

  pub record Good (s : System l) : Type 0 where
    pub lock_inv : Inv s.lock (places s.workers)
    pub shapes : (i : ℕ) → i < n → Shaped l task max s.counter (s.workers i)
    pub counted : (j : ℕ) → s.counter j ≡ total (tally task j) n s.workers

  pub create-Good : Good (create l task n max)
  unfolding create hits
  create-Good = record {
    lock_inv = init;
    shapes = λ i h. rw (begins i) (omega arith);
    counted = λ j. sym (
        rw (total_const (tally task j) n 0 (create l task n max).workers (λ i h. refl))
          (omega arith));
  }

  module _ (s : System l) (g : Good s) (i c : ℕ) (h : i < n) where
    open g use {lock_inv, shapes, counted}

    w : Worker Local
    w = s.workers i

    effect :
        Effect l task max i c s.lock s.counter w (worker_turn l task n max i c s.lock s.counter w)
    unfolding w
    effect =
        worker_turn-Effect l task n max i c s.lock s.counter w (orderly i c s.lock w.place)
          (shapes i h)

    abbrev next : System l
    next = record {
      lock = (worker_turn l task n max i c s.lock s.counter (s.workers i)).lock;
      counter = (worker_turn l task n max i c s.lock s.counter (s.workers i)).counter;
      workers =
          assign s.workers i (worker_turn l task n max i c s.lock s.counter (s.workers i)).worker;
    }

    next_lock : Inv next.lock (places next.workers)
    unfolding w
    next_lock = rw (places-assign s.workers i next_worker) (elim (effect.moved) [
      | inl (e, f) ↦ rw (e, f, assign_same (places s.workers) i) lock_inv
      | inr (e, f) ↦ rw (e, f) (keep i c s.lock (places s.workers) h lock_inv)
    ])
      where
        next_worker : Worker Local
        next_worker = (worker_turn l task n max i c s.lock s.counter (s.workers i)).worker

    others : (j : ℕ) → j < n → i ≢ j → Shaped l task max next.counter (s.workers j)
    unfolding w
    others j k d = elim (effect.quiet) [
      | inl e ↦ rw e (shapes j k)
      | inr (p, q) ↦
          Shape-counter max (s.counter (cell (s.workers j).round))
            (next.counter (cell (s.workers j).round)) _ _ _
            (λ r. d (exclusive i j s.lock (places s.workers) h k lock_inv p r)) (shapes j k)
    ]

    next_shapes : (j : ℕ) → j < n → Shaped l task max next.counter (next.workers j)
    unfolding w
    next_shapes j k = elim (eq-cases i j) [
      | inl e ↦ rw (← e, assign_self s.workers i _) (effect.shape)
      | inr d ↦ rw (assign_other s.workers i j _ d) (others j k d)
    ]

    next_counted : (j : ℕ) → next.counter j ≡ total (tally task j) n next.workers
    unfolding w
    next_counted j =
        omega (arith, effect.counted j, counted j, total-assign (tally task j) n s.workers i _ h)

    pub next-Good : Good next
    next-Good = record { lock_inv = next_lock; shapes = next_shapes; counted = next_counted }

  pub tick-Good : (s : System l) (a : Action) → Good s → Good (tick l task n max s a)
  unfolding tick
  tick-Good s a g = elim (Bool-cases (ltb a.thread n)) [
    | inl e ↦ rw e (next-Good s g a.thread a.choice (ground arith))
    | inr e ↦ rw e g
  ]

  pub run-Good : (actions : List Action) (s : System l) → Good s → Good (run l task n max actions s)
  unfolding run
  run-Good [] s g = g
  run-Good (a ∷ rest) s g = run-Good rest (tick l task n max s a) (tick-Good s a g)
