-- ===== src/Worker/Cost.antt =====
-- A bound on the steps that a worker still needs, those within calls of the lock left aside: it
-- falls when a call begins or returns, and with every step of the loop's own.
use concurrencia.Base.{ℕ, suc, ◌+◌, ◌-◌, ◌*◌, ◌<◌, ◌≡◌, refl, true, false, arith, lt→ltb}
use concurrencia.Lock.{Phase, outside, entering, inside, leaving, is_busy, follows, Lock, Laws}
use concurrencia.Worker.Defs.{
  Task, Stage, start, loaded, stored, Worker, settle, lock_turn, body_turn, loop_turn, worker_turn,
}
use concurrencia.Worker.Shape.{Shape, Shaped}

-- The rounds after this one, and the place within it.
unfoldable pub cost_at : ℕ → Phase → Stage → ℕ → ℕ
cost_at max outside g r = (max - r) * 10
cost_at max entering g r = (max - suc r) * 10 + 6
cost_at max inside start r = (max - suc r) * 10 + 4
cost_at max inside (loaded _) r = (max - suc r) * 10 + 3
cost_at max inside stored r = (max - suc r) * 10 + 2
cost_at max leaving g r = (max - suc r) * 10 + 1

-- A step of the lock lowers the cost where it begins a call, and where a call returns.
settle_cost :
    {L : Type 0} (max c : ℕ) (ph ph' : Phase) (g : Stage) (r : ℕ) (p : L)
    → follows ph ph' ≡ true
    → Shape max c ph g r
    → r < max
    → (ph ≡ inside → g ≡ stored)
    → (is_busy ph ≡ true → is_busy ph' ≡ false)
    → cost_at max ph' (settle ph' g r p).stage (settle ph' g r p).round < cost_at max ph g r
unfolding cost_at
settle_cost max c ph ph' g r p f shape h last returns = ground arith

-- Within a call it stays.
settle_same :
    {L : Type 0} (max : ℕ) (ph ph' : Phase) (g : Stage) (r : ℕ) (p : L)
    → follows ph ph' ≡ true
    → is_busy ph ≡ true
    → is_busy ph' ≡ true
    → cost_at max ph' (settle ph' g r p).stage (settle ph' g r p).round ≡ cost_at max ph g r
unfolding cost_at
settle_same max ph ph' g r p f b b' = ground arith

settle-place : {L : Type 0} (ph : Phase) (g : Stage) (r : ℕ) (p : L) → (settle ph g r p).place ≡ p
settle-place ph g r p = ground arith

inside_below : (max k r : ℕ) (g : Stage) → Shape max k inside g r → r < max
inside_below max k r start h = h
inside_below max k r (loaded v) h = h.1
inside_below max k r stored h = h

module _ (n max : ℕ) (l : Lock) (task : Task) (laws : Laws n l) where
  open task use {cell}
  open l use {Shared, Local, step, phase}
  open laws use {orderly}

  pub cost : Worker Local → ℕ
  cost w = cost_at max (phase w.place) w.stage w.round

  -- A step lowers the cost if the thread still has a round to do, and if its call returns where it is
  -- in one.
  module _ (i c : ℕ) (s : Shared) (k : ℕ → ℕ) (w : Worker Local) where
    cost-lock_turn :
        Shaped l task max k w
        → w.round < max
        → (phase w.place ≡ inside → w.stage ≡ stored)
        → (is_busy (phase w.place) ≡ true → is_busy (phase (step i c s w.place).1) ≡ false)
        → cost (lock_turn l i c s k w).worker < cost w
    unfolding lock_turn cost
    cost-lock_turn h below last falls =
        let p' = (step i c s w.place).1 in
        let lower =
          settle_cost max (k (cell w.round)) (phase w.place) (phase p') w.stage w.round p'
            (orderly i c s w.place) h below last falls in
        rw (settle-place (phase p') w.stage w.round p') lower

    cost-body_turn :
        (g : Stage)
        → w.stage ≡ g
        → phase w.place ≡ inside
        → Shaped l task max k w
        → cost (body_turn l task g i c s k w).worker < cost w
    unfolding body_turn cost cost_at
    cost-body_turn start e q h = rw (q, e) (omega arith)
    cost-body_turn (loaded v) e q h = rw (q, e) (omega arith)
    cost-body_turn stored e q h =
        cost-lock_turn h (inside_below max (k (cell w.round)) w.round w.stage (rw q at h)) (λ _. e)
          (λ b. cc (q, b))

    cost-loop_turn :
        (ph : Phase)
        → phase w.place ≡ ph
        → Shaped l task max k w
        → w.round < max
        → (is_busy ph ≡ true → is_busy (phase (step i c s w.place).1) ≡ false)
        → cost (loop_turn l task max ph i c s k w).worker < cost w
    unfolding loop_turn
    cost-loop_turn outside q h below falls =
        rw (lt→ltb _ _ below)
          (cost-lock_turn h below (λ e. absurd (cc (q, e))) (λ b. absurd (cc (q, b))))
    cost-loop_turn entering q h below falls =
        cost-lock_turn h below (λ e. absurd (cc (q, e))) (λ _. falls refl)
    cost-loop_turn inside q h below falls = cost-body_turn w.stage refl q h
    cost-loop_turn leaving q h below falls =
        cost-lock_turn h below (λ e. absurd (cc (q, e))) (λ _. falls refl)

  pub cost-worker_turn :
      (i c : ℕ) (s : Shared) (k : ℕ → ℕ) (w : Worker Local)
      → Shaped l task max k w
      → w.round < max
      → (is_busy (phase w.place) ≡ true → is_busy (phase (step i c s w.place).1) ≡ false)
      → cost (worker_turn l task n max i c s k w).worker < cost w
  unfolding worker_turn
  cost-worker_turn i c s k w h below falls =
      cost-loop_turn i c s k w (phase w.place) refl h below falls

  -- What a step within a call does.
  pub worker_turn_busy :
      (i c : ℕ) (s : Shared) (k : ℕ → ℕ) (w : Worker Local)
      → is_busy (phase w.place) ≡ true
      → worker_turn l task n max i c s k w ≡ lock_turn l i c s k w
  unfolding worker_turn
  worker_turn_busy i c s k w b = busy_turn (phase w.place) b
    where
      busy_turn :
          (ph : Phase)
          → is_busy ph ≡ true
          → loop_turn l task max ph i c s k w ≡ lock_turn l i c s k w
      busy_turn ph e = unfold loop_turn in ground arith

  pub cost-lock_turn_same :
      (i c : ℕ) (s : Shared) (k : ℕ → ℕ) (w : Worker Local)
      → is_busy (phase w.place) ≡ true
      → is_busy (phase (step i c s w.place).1) ≡ true
      → cost (lock_turn l i c s k w).worker ≡ cost w
  unfolding lock_turn cost
  cost-lock_turn_same i c s k w b b' =
      let p' = (step i c s w.place).1 in
      rw (settle-place (phase p') w.stage w.round p')
        (settle_same max (phase w.place) (phase p') w.stage w.round p' (orderly i c s w.place) b b')

  pub lock_turn-place :
      (i c : ℕ) (s : Shared) (k : ℕ → ℕ) (w : Worker Local)
      → (lock_turn l i c s k w).worker.place ≡ (step i c s w.place).1
  unfolding lock_turn
  lock_turn-place i c s k w =
      settle-place (phase (step i c s w.place).1) w.stage w.round (step i c s w.place).1
