-- ===== src/Worker/Ended.antt =====
-- Threads that have ended, and threads that have not.
use concurrencia.Base.{
  ℕ, zero, suc, ◌<◌, ◌≡◌, refl, inl, inr, Bool, true, false, ◌&&◌, List, [], ◌∷◌, ◌++◌, arith,
  lt-cases,
}
use concurrencia.Lock.{is_inside, is_busy, Lock}
use concurrencia.Worker.Defs.{Task, start, Worker, Action, System, tick, run, is_done, all_done}
use concurrencia.Worker.Shape.{hits, Shaped, tally}

pub first_done : (a b : Bool) → (a && b) ≡ true → a ≡ true
first_done a b h = ground arith

pub rest_done : (a b : Bool) → (a && b) ≡ true → b ≡ true
rest_done a b h = ground arith

module _ (n max : ℕ) (l : Lock) (task : Task) where
  open task use {cell}
  open l use {Shared, Local, step, phase}

  pub run-append :
      (xs ys : List Action) (s : System l)
      → run l task n max (xs ++ ys) s ≡ run l task n max ys (run l task n max xs s)
  unfolding run
  run-append [] ys s = refl
  run-append (x ∷ xs) ys s = run-append xs ys (tick l task n max s x)

  pub all_done-intro :
      (m : ℕ) (ws : ℕ → Worker Local)
      → ((i : ℕ) → i < m → is_done l task n max (ws i) ≡ true)
      → all_done l task n max m ws ≡ true
  unfolding all_done
  all_done-intro zero ws h = refl
  all_done-intro (suc m) ws h =
      rw (h m (omega arith)) (all_done-intro m ws (λ i k. h i (omega arith)))

  pub all_done-elim :
      (m : ℕ) (ws : ℕ → Worker Local)
      → all_done l task n max m ws ≡ true
      → (i : ℕ) → i < m
      → is_done l task n max (ws i) ≡ true
  unfolding all_done
  all_done-elim zero ws h i k = absurd (omega arith)
  all_done-elim (suc m) ws h i k = elim (lt-cases i m) [
    | inl below ↦ all_done-elim m ws (rest_done (is_done l task n max (ws m)) _ h) i below
    | inr last ↦ let e : i ≡ m = omega arith in rw e (first_done (is_done l task n max (ws m)) _ h)
  ]

  pub done_place :
      (k : ℕ → ℕ) (w : Worker Local)
      → is_done l task n max w ≡ true
      → Shaped l task max k w
      → (w.stage ≡ start) × (w.round ≡ max)
  done_place k w d h = ground arith

  pub done_tally :
      (k : ℕ → ℕ) (w : Worker Local)
      → is_done l task n max w ≡ true
      → Shaped l task max k w
      → (j : ℕ) → tally task j w ≡ hits task j max
  done_tally k w d h j = let (e, f) = done_place k w d h in rw (e, f)

  pub busy_not_done :
      (w : Worker Local) → is_busy (phase w.place) ≡ true → is_done l task n max w ≡ false
  busy_not_done w h = ground arith

  pub inside_not_done :
      (w : Worker Local) → is_inside (phase w.place) ≡ true → is_done l task n max w ≡ false
  inside_not_done w h = ground arith

  pub busy_below :
      (k : ℕ → ℕ) (w : Worker Local)
      → is_done l task n max w ≡ false
      → Shaped l task max k w
      → w.round < max
  busy_below k w d h = ground arith
