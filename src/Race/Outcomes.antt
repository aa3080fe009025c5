-- ===== src/Race/Outcomes.antt =====
-- Two threads in turn lose nothing; two threads in step lose every second update.
use concurrencia.Base.{
  ℕ, zero, suc, ◌+◌, ◌*◌, ◌<◌, ◌≡◌, refl, ap, ◌∙◌, true, leb, some, List, [], ◌∷◌, ◌++◌, arith,
  lt→ltb,
}
use native.Mathlib.Nat.{add_assoc}
use concurrencia.Worker.{Action}
use concurrencia.Race.Defs.{
  ready, Thread, System, add_turn, turn, tick, run, create, all_done, join, main,
}

abbrev pub go : ℕ → Action
go i = record { thread = i; choice = 0 }

-- Thread 0 makes a round, then thread 1.
abbrev pub in_turn : List Action
in_turn = go 0 ∷ go 0 ∷ go 1 ∷ go 1 ∷ []

-- Both load, then both store.
abbrev pub in_step : List Action
in_step = go 0 ∷ go 1 ∷ go 0 ∷ go 1 ∷ []

abbrev pub repeated : ℕ → List Action → List Action
repeated zero block = []
repeated (suc d) block = block ++ repeated d block

leb_refl : (a : ℕ) → leb a a ≡ true
leb_refl a = ground arith

abbrev at_round : ℕ → Thread
at_round r = record { place = ready; round = r }

record Level (s : System) (r k : ℕ) : Type 0 where
  first : s.threads 0 ≡ at_round r
  second : s.threads 1 ≡ at_round r
  count : s.counter ≡ k

module _ (amount max : ℕ) where
  round_in_turn :
      (s : System) (r k : ℕ)
      → r < max
      → Level s r k
      → Level (run amount 2 max in_turn s) (suc r) (k + amount + amount)
  unfolding run tick turn add_turn
  round_in_turn s r k h l =
      rw (l.first, l.second, l.count, lt→ltb r max h)
        (record { first = refl; second = refl; count = refl })

  round_in_step :
      (s : System) (r k : ℕ)
      → r < max
      → Level s r k
      → Level (run amount 2 max in_step s) (suc r) (k + amount)
  unfolding run tick turn add_turn
  round_in_step s r k h l =
      rw (l.first, l.second, l.count, lt→ltb r max h)
        (record { first = refl; second = refl; count = refl })

  run-append :
      (xs ys : List Action) (s : System)
      → run amount 2 max (xs ++ ys) s ≡ run amount 2 max ys (run amount 2 max xs s)
  unfolding run
  run-append [] ys s = refl
  run-append (x ∷ xs) ys s = run-append xs ys (tick amount 2 max s x)

  -- Blocks that add `gain` to the counter and bring both threads to the next round.
  module _ (block : List Action) (gain : ℕ)
      (one : (s : System) (r k : ℕ)
        → r < max
        → Level s r k
        → Level (run amount 2 max block s) (suc r) (k + gain)) where
    repeat :
        (d : ℕ) (s : System) (r k : ℕ)
        → r + d ≡ max
        → Level s r k
        → Level (run amount 2 max (repeated d block) s) max (k + d * gain)
    unfolding run
    repeat zero s r k e l =
        let f : r ≡ max = omega arith in let g : k + 0 * gain ≡ k = omega arith in rw (← f, g) l
    repeat (suc d) s r k e l =
        let g : k + suc d * gain ≡ k + gain + d * gain = omega arith in
        rw (run-append block (repeated d block) s, g)
          (repeat d (run amount 2 max block s) (suc r) (k + gain) (omega arith)
            (one s r k (omega arith) l))

    ends : (v : ℕ) → v ≡ max * gain → main amount 2 max (repeated max block) ≡ some v
    unfolding main join all_done
    ends v e =
        let l =
          repeat max (create amount 2 max) 0 0 (omega arith)
            (record { first = refl; second = refl; count = refl }) in
        rw (l.first, l.second, leb_refl max) (ap some (l.count ∙ omega arith))

  pub ends_in_turn :
      (v : ℕ) → v ≡ max * (amount + amount) → main amount 2 max (repeated max in_turn) ≡ some v
  ends_in_turn =
      ends in_turn (amount + amount)
        (λ s r k h l. rw (← add_assoc k amount amount) (round_in_turn s r k h l))

  pub ends_in_step : (v : ℕ) → v ≡ max * amount → main amount 2 max (repeated max in_step) ≡ some v
  ends_in_step = ends in_step amount round_in_step
