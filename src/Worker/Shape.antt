-- ===== src/Worker/Shape.antt =====
-- What a worker's stage and round say at each phase, and that one step of it keeps this.
use concurrencia.Base.{
  ℕ, suc, ◌+◌, ◌≤◌, ◌<◌, ◌≡◌, refl, ◌⊎◌, inl, inr, true, arith, ltb, Bool-cases, eq-cases, zero,
  sym, ap, ◌==◌, ◌&&◌, if◌then◌else◌, assign,
}
use concurrencia.Lock.{Phase, outside, entering, inside, leaving, follows, Lock}
use concurrencia.Worker.Defs.{
  Task, Stage, start, loaded, stored, Worker, settle, Turn, lock_turn, body_turn, loop_turn,
  worker_turn,
}

-- A worker with a value loaded stands inside, and the value is the counter's.
abbrev pub Shape : ℕ → ℕ → Phase → Stage → ℕ → Type 0
Shape max k outside start r = r ≤ max
Shape max k entering start r = r < max
Shape max k inside start r = r < max
Shape max k inside (loaded v) r = (v ≡ k) × (r < max)
Shape max k inside stored r = r < max
Shape max k leaving stored r = r < max
Shape max k _ _ r = ⊥

-- How often the first `r` rounds store in the cell.
unfoldable pub hits : Task → ℕ → ℕ → ℕ
hits task j zero = 0
hits task j (suc r) = hits task j r + (if task.writes r && task.cell r == j then 1 else 0)

-- How often the worker has stored in the cell.
abbrev pub stores : Task → ℕ → Stage → ℕ → ℕ
stores task j stored r = hits task j (suc r)
stores task j _ r = hits task j r

abbrev pub tally : {L : Type 0} → Task → ℕ → Worker L → ℕ
tally task j w = stores task j w.stage w.round

-- A step of the lock may be made at this stage.
abbrev Ready : ℕ → Phase → Stage → ℕ → Type 0
Ready max outside g r = r < max
Ready max inside g r = g ≡ stored
Ready max _ g r = Unit

settle-Shape :
    {L : Type 0} (max k k' : ℕ) (ph ph' : Phase) (g : Stage) (r : ℕ) (p : L)
    → follows ph ph' ≡ true
    → Ready max ph g r
    → Shape max k ph g r
    → Shape max k' ph' (settle ph' g r p).stage (settle ph' g r p).round
settle-Shape max k k' ph ph' g r p f ready h = ground arith

settle-tally :
    {L : Type 0} (task : Task) (j max k : ℕ) (ph ph' : Phase) (g : Stage) (r : ℕ) (p : L)
    → follows ph ph' ≡ true
    → Ready max ph g r
    → Shape max k ph g r
    → (tally task j (settle ph' g r p) ≡ stores task j g r) × ((settle ph' g r p).place ≡ p)
settle-tally task j max k ph ph' g r p f ready h = ground arith

-- Only a worker that has loaded sees a change of the counter.
pub Shape-counter :
    (max k k' : ℕ) (ph : Phase) (g : Stage) (r : ℕ)
    → (ph ≡ inside → ⊥)
    → Shape max k ph g r
    → Shape max k' ph g r
Shape-counter max k k' ph g r other h = ground arith

pub Shape-le : (max k : ℕ) (ph : Phase) (g : Stage) (r : ℕ) → Shape max k ph g r → r ≤ max
Shape-le max k ph g r h = ground arith

module _ (l : Lock) (task : Task) where
  open l use {Shared, Local, step, phase}
  open task use {cell, writes}

  -- The worker's stage and round fit its phase and the counter.
  abbrev pub Shaped : ℕ → (ℕ → ℕ) → Worker Local → Type 0
  Shaped max k w = Shape max (k (cell w.round)) (phase w.place) w.stage w.round

  -- What one step does to the worker, to the counter and to the lock.
  pub record Effect (max i c : ℕ) (s : Shared) (k : ℕ → ℕ) (w : Worker Local) (t : Turn l)
      : Type 0 where
    pub shape : Shaped max t.counter t.worker
    pub counted : (j : ℕ) → t.counter j + tally task j w ≡ k j + tally task j t.worker
    pub quiet : (t.counter ≡ k) ⊎ ((phase w.place ≡ inside) × (phase t.worker.place ≡ inside))
    pub moved :
        ((t.lock ≡ s) × (t.worker.place ≡ w.place))
        ⊎ ((t.lock ≡ (step i c s w.place).0) × (t.worker.place ≡ (step i c s w.place).1))

  module _ (max i c : ℕ) (s : Shared) (k : ℕ → ℕ) (w : Worker Local) where
    lock_turn-Effect :
        follows (phase w.place) (phase (step i c s w.place).1) ≡ true
        → Ready max (phase w.place) w.stage w.round
        → Shaped max k w
        → Effect max i c s k w (lock_turn l i c s k w)
    unfolding lock_turn
    lock_turn-Effect f ready h =
        let p' = (step i c s w.place).1 in
        let w' = settle (phase p') w.stage w.round p' in
        let here = k (cell w.round) in
        let kept =
          settle-Shape max here (k (cell w'.round)) (phase w.place) (phase p') w.stage w.round p' f
            ready h in
        let same = λ (j : ℕ).
          settle-tally task j max here (phase w.place) (phase p') w.stage w.round p' f ready h in
        record {
          shape = rw ((same 0).1) kept;
          counted = λ j. ap (λ (x : ℕ). k j + x) (sym (same j).0);
          quiet = inl refl;
          moved = inr (refl, (same 0).1);
        }

    stored_counted :
        (v j : ℕ)
        → v ≡ k (cell w.round)
        → (if writes w.round then assign k (cell w.round) (v + 1) else k) j + hits task j w.round
          ≡ k j + hits task j (suc w.round)
    unfolding hits
    stored_counted v j e = elim (Bool-cases (writes w.round)) [
      | inl yes_writes ↦ rw yes_writes (elim (eq-cases (cell w.round) j) [
        | inl d ↦ ground (arith, ap k d)
        | inr d ↦ ground arith
      ])
      | inr no_write ↦ rw no_write (omega arith)
    ]

    body_turn-Effect :
        (g : Stage)
        → w.stage ≡ g
        → phase w.place ≡ inside
        → follows (phase w.place) (phase (step i c s w.place).1) ≡ true
        → Shaped max k w
        → Effect max i c s k w (body_turn l task g i c s k w)
    unfolding body_turn
    body_turn-Effect start e q f h = record {
      shape = ground arith;
      counted = λ j. ground arith;
      quiet = inl refl;
      moved = inl (refl, refl);
    }
    body_turn-Effect (loaded v) e q f h = record {
      shape = ground arith;
      counted = λ j.
          let before : tally task j w ≡ hits task j w.round = rw e refl in
          rw before (stored_counted v j ((rw (q, e) at h).0));
      quiet = inr (q, q);
      moved = inl (refl, refl);
    }
    body_turn-Effect stored e q f h = lock_turn-Effect f (rw q e) h

    loop_turn-Effect :
        (ph : Phase)
        → phase w.place ≡ ph
        → follows (phase w.place) (phase (step i c s w.place).1) ≡ true
        → Shaped max k w
        → Effect max i c s k w (loop_turn l task max ph i c s k w)
    unfolding loop_turn
    loop_turn-Effect outside q f h = elim (Bool-cases (ltb w.round max)) [
      | inl more ↦ rw more (lock_turn-Effect f (rw q (ground arith)) h)
      | inr over ↦
          rw over
            (record { shape = h; counted = λ j. refl; quiet = inl refl; moved = inl (refl, refl) })
    ]
    loop_turn-Effect entering q f h = lock_turn-Effect f (rw q tt) h
    loop_turn-Effect inside q f h = body_turn-Effect w.stage refl q f h
    loop_turn-Effect leaving q f h = lock_turn-Effect f (rw q tt) h

  -- A step of a worker in shape leaves it in shape, whatever it is about to do.
  pub worker_turn-Effect :
      (n max i c : ℕ) (s : Shared) (k : ℕ → ℕ) (w : Worker Local)
      → follows (phase w.place) (phase (step i c s w.place).1) ≡ true
      → Shaped max k w
      → Effect max i c s k w (worker_turn l task n max i c s k w)
  unfolding worker_turn
  worker_turn-Effect n max i c s k w f h = loop_turn-Effect max i c s k w (phase w.place) refl f h
