-- ===== src/Peterson/Kept.antt =====
-- Every step keeps the invariant.
use concurrencia.Base.{
  ℕ, ◌<◌, ◌≡◌, sym, ◌∙◌, ◌≢◌, inl, inr, List, [], ◌∷◌, arith, assign_self, assign_other,
  total-assign, ltb, Bool-cases, eq-cases, ltb→lt,
}
use concurrencia.Worker.{Action}
use concurrencia.Peterson.Defs.{System, other, num_threads, count, tick, run}
use concurrencia.Peterson.Steps.{
  holds, contends, Fits, move-turn, move-Fits, move-counter, move-stores,
}
use concurrencia.Peterson.Invariant.{
  tally, Fits-counter, holds-contends, holds-cases, Good, first, create-Good, result, next,
  next_flags, guard_mover, guard_other,
}

module _ (max : ℕ) (s : System) (g : Good max s) (i : ℕ) (h : i < 2) where
  open g use {turn_lt, guard, fits, counted}

  abbrev moved : System
  moved = next max s g i h

  self : moved.threads i ≡ (result max s g i h).thread
  self = assign_self s.threads i (result max s g i h).thread

  another : (j : ℕ) → i ≢ j → moved.threads j ≡ s.threads j
  another j d = assign_other s.threads i j (result max s g i h).thread d

  next_guard :
      (a b : ℕ)
      → a < 2
      → b < 2
      → a ≢ b
      → holds (moved.threads a).place ≡ 1
      → contends (moved.threads b).place ≡ 1
      → (moved.turn ≡ a) × (holds (moved.threads b).place ≡ 0)
  next_guard a b k l d p q = elim (eq-cases i a) [
    | inl e ↦
        let apart : i ≢ b = (λ f. d (sym e ∙ f)) in
        rw (another b apart) (
          let (turns, out) =
            guard_mover max s g i h b l apart (rw (← e, self) at p) (rw (another b apart) at q) in
          (turns ∙ e, out))
    | inr apart ↦ elim (eq-cases i b) [
      | inl f ↦
          rw (← f, self)
            (guard_other max s g i h a k (λ e. apart (sym e)) (rw (another a apart) at p)
              (rw (← f, self) at q))
      | inr neither ↦ absurd (omega (arith, k, l, h, d, apart, neither))
    ]
  ]

  -- While the other thread is inside, this one leaves the counter alone.
  unseen : (j : ℕ) → j < 2 → i ≢ j → holds (s.threads j).place ≡ 1 → moved.counter ≡ s.counter
  unfolding count
  unseen j k d p =
      move-counter max i (s.states i) (s.states (other i)) s.turn s.counter (s.threads i).round
        (s.threads i).place out
    where
      out : holds (s.threads i).place ≡ 0
      out = elim (eq-cases (holds (s.threads i).place) 1) [
        | inl inside ↦
            (guard j i k h (λ f. d (sym f)) p (holds-contends (s.threads i).place inside)).1
        | inr away ↦ holds-cases (s.threads i).place away
      ]

  next-Fits :
      (j : ℕ) → j < 2 → Fits max moved.counter (moved.threads j).place (moved.threads j).round
  unfolding count
  next-Fits j k = elim (eq-cases i j) [
    | inl e ↦
        rw (← e, self)
          (move-Fits max i (s.states i) (s.states (other i)) s.turn s.counter (s.threads i).round
            (s.threads i).place (fits i h))
    | inr d ↦ rw (another j d) (
        Fits-counter max s.counter moved.counter (s.threads j).place (s.threads j).round
          (unseen j k d) (fits j k))
  ]

  next-Good : Good max moved
  unfolding count
  next-Good = record {
    flags = next_flags max s g i h;
    turn_lt =
        move-turn max i (s.states i) (s.states (other i)) s.turn s.counter (s.threads i).round
          (s.threads i).place turn_lt;
    guard = next_guard;
    fits = next-Fits;
    counted = omega (
      arith,
      counted,
      total-assign tally 2 s.threads i (result max s g i h).thread h,
      move-stores max i (s.states i) (s.states (other i)) s.turn s.counter (s.threads i).round
          (s.threads i).place (fits i h),
    );
  }

module _ (max : ℕ) where
  pub tick-Good : (s : System) (a : Action) → Good max s → Good max (tick max s a)
  unfolding tick
  tick-Good s a g = elim (Bool-cases (ltb a.thread num_threads)) [
    | inl p ↦ rw p (next-Good max s g a.thread (ltb→lt _ _ p))
    | inr p ↦ rw p g
  ]

  run-Good : (actions : List Action) (s : System) → Good max s → Good max (run max actions s)
  unfolding run
  run-Good [] s g = g
  run-Good (a ∷ rest) s g = run-Good rest (tick max s a) (tick-Good s a g)

  pub after : (actions : List Action) → Good max (run max actions (first max))
  after actions = run-Good actions (first max) (create-Good max)
