-- ===== src/Rtm/Steps.antt =====
-- What one step of a thread keeps.
use concurrencia.Base.{
  ℕ, zero, suc, ◌+◌, ◌*◌, ◌-◌, ◌≤◌, ◌<◌, ◌≡◌, refl, false, arith, assign, if◌then◌else◌,
}
use concurrencia.Worker.{Task, hits}
use concurrencia.Atomic.Defs.{commit}
use concurrencia.Atomic.Results.{commit_counted}
use concurrencia.Rtm.Defs.{
  Intrinsics, Place, top, trying, locking, held, loaded, stored, releasing, Turn, attempt, turn,
}

-- 1 for a thread that holds the lock, and for a free lock.
abbrev pub owns : Place → ℕ
owns top = 0
owns (trying _ _) = 0
owns locking = 0
owns _ = 1

abbrev pub free : ℕ → ℕ
free mutex = 1 - mutex

-- What place and round of a thread say, over the counter.
abbrev pub Fits : ℕ → (ℕ → ℕ) → (ℕ → ℕ) → Place → ℕ → Type 0
Fits max cell k top r = r ≤ max
Fits max cell k (loaded v) r = (v ≡ k (cell r)) × (r < max)
Fits max cell k _ r = r < max

-- How often a thread has stored in the cell.
abbrev pub stores : Task → ℕ → Place → ℕ → ℕ
stores task j stored r = hits task j (suc r)
stores task j releasing r = hits task j (suc r)
stores task j _ r = hits task j r

-- How far a thread is from its end: `rtm_lock` tries at most ten times before it locks.
abbrev pub steps_left : Place → ℕ
steps_left top = 18
steps_left (trying c _) = 7 + (10 - c)
steps_left locking = 6
steps_left held = 5
steps_left (loaded _) = 4
steps_left stored = 3
steps_left releasing = 2

abbrev pub cost : ℕ → Place → ℕ → ℕ
cost max p r = (max - r) * 20 + steps_left p

module _ (intrinsics : Intrinsics) (task : Task) (n max : ℕ) where
  open task use {cell, writes}

  abbrev next : Place → ℕ → ℕ → (ℕ → ℕ) → ℕ → Turn
  next = turn intrinsics task n max

  module _ (choice mutex : ℕ) (k : ℕ → ℕ) (r : ℕ) where
    attempt-owns :
        (c : ℕ)
        → (owns (attempt intrinsics task choice c mutex k r).thread.place ≡ 0)
          × ((attempt intrinsics task choice c mutex k r).mutex ≡ mutex)
    unfolding attempt
    attempt-owns c = ground arith

    pub turn-owns :
        (p : Place)
        → owns p + free mutex ≤ 1
        → owns (next p choice mutex k r).thread.place + free (next p choice mutex k r).mutex
          ≡ owns p + free mutex
    unfolding turn
    turn-owns (trying c status) h = ground (arith, attempt-owns c)
    turn-owns top h = ground arith
    turn-owns locking h = ground arith
    turn-owns held h = ground arith
    turn-owns (loaded v) h = ground arith
    turn-owns stored h = ground arith
    turn-owns releasing h = ground arith

    -- While somebody else holds the lock, the counter stays.
    attempt_counter :
        (c : ℕ) → free mutex ≡ 0 → (attempt intrinsics task choice c mutex k r).counter ≡ k
    unfolding attempt
    attempt_counter c h = ground arith

    pub turn_counter :
        (p : Place) → owns p ≡ 0 → free mutex ≡ 0 → (next p choice mutex k r).counter ≡ k
    unfolding turn
    turn_counter (trying c status) h f = ground (arith, attempt_counter c f)
    turn_counter top h f = refl
    turn_counter locking h f = refl
    turn_counter held h f = ground arith
    turn_counter (loaded v) h f = ground arith
    turn_counter stored h f = ground arith
    turn_counter releasing h f = ground arith

    attempt-Fits :
        (c : ℕ)
        → r < max
        → Fits max cell
            (attempt intrinsics task choice c mutex k r).counter
            (attempt intrinsics task choice c mutex k r).thread.place
            (attempt intrinsics task choice c mutex k r).thread.round
    unfolding attempt
    attempt-Fits c h = ground arith

    pub turn-Fits :
        (p : Place)
        → Fits max cell k p r
        → Fits max cell
            (next p choice mutex k r).counter
            (next p choice mutex k r).thread.place
            (next p choice mutex k r).thread.round
    unfolding turn
    turn-Fits (trying c status) h = ground (arith, attempt-Fits c h)
    turn-Fits top h = ground arith
    turn-Fits locking h = ground arith
    turn-Fits held h = (refl, h)
    turn-Fits (loaded v) h = ground arith
    turn-Fits stored h = ground arith
    turn-Fits releasing h = ground arith

    attempt-stores :
        (c j : ℕ)
        → (attempt intrinsics task choice c mutex k r).counter j + hits task j r
          ≡ k j
            + stores task j
                (attempt intrinsics task choice c mutex k r).thread.place
                (attempt intrinsics task choice c mutex k r).thread.round
    unfolding attempt
    attempt-stores c j = ground (arith, commit_counted task false 0 0 k r j)

    -- A store of the loaded value plus 1 is what a committed round does.
    store_commits :
        (v : ℕ)
        → v ≡ k (cell r)
        → (if writes r then assign k (cell r) (v + 1) else k) ≡ commit task k r
    unfolding commit
    store_commits v e = rw e

    pub turn-stores :
        (p : Place) (j : ℕ)
        → Fits max cell k p r
        → (next p choice mutex k r).counter j + stores task j p r
          ≡ k j
            + stores task j
                (next p choice mutex k r).thread.place
                (next p choice mutex k r).thread.round
    unfolding turn
    turn-stores (trying c status) j h = ground (arith, attempt-stores c j)
    turn-stores top j h = ground arith
    turn-stores locking j h = ground arith
    turn-stores held j h = refl
    turn-stores (loaded v) j h = rw (store_commits v h.0) (commit_counted task false 0 0 k r j)
    turn-stores stored j h = ground arith
    turn-stores releasing j h = refl

  -- Whatever the environment does to a transaction, a step of a thread that holds the lock or finds it
  -- free brings the end nearer.
  pub turn-cost :
      (choice mutex : ℕ) (k : ℕ → ℕ) (p : Place) (r : ℕ)
      → Fits max cell k p r
      → r < max
      → owns p + free mutex ≡ 1
      → cost max (next p choice mutex k r).thread.place (next p choice mutex k r).thread.round
        < cost max p r
  unfolding turn attempt
  turn-cost choice mutex k top r h below one = ground arith
  turn-cost zero mutex k (trying c status) r h below one = ground arith
  turn-cost (suc abort) mutex k (trying c status) r h below one = ground arith
  turn-cost choice mutex k locking r h below one = ground arith
  turn-cost choice mutex k held r h below one = ground arith
  turn-cost choice mutex k (loaded v) r h below one = ground arith
  turn-cost choice mutex k stored r h below one = ground arith
  turn-cost choice mutex k releasing r h below one = ground arith
