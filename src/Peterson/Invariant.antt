-- ===== src/Peterson/Invariant.antt =====
-- What holds after any steps: of a thread inside and one that contends, the turn is with the first,
-- and only it is inside.
use concurrencia.Base.{
  ℕ, ◌<◌, ◌≡◌, refl, sym, ◌≢◌, inl, inr, arith, assign, assign_self, assign_other, total,
  total_const, eq-cases,
}
use concurrencia.Peterson.Defs.{Place, Thread, System, Move, other, count, create}
use concurrencia.Peterson.Steps.{
  raises, holds, contends, Fits, stores, move-raises, move-holds_turn, move-holds, move-contends,
}

abbrev pub tally : Thread → ℕ
tally w = stores w.place w.round

-- Only a thread inside sees a change of the counter.
pub Fits-counter :
    (max k k' : ℕ) (p : Place) (r : ℕ) → (holds p ≡ 1 → k' ≡ k) → Fits max k p r → Fits max k' p r
Fits-counter max k k' p r same f = ground arith

pub holds-contends : (p : Place) → holds p ≡ 1 → contends p ≡ 1
holds-contends p h = ground arith

pub contends-raises : (p : Place) → contends p ≡ 1 → raises p ≡ 1
contends-raises p h = ground arith

pub holds-cases : (p : Place) → holds p ≢ 1 → holds p ≡ 0
holds-cases p h = ground arith

pub other_of : (i j : ℕ) → i < 2 → j < 2 → i ≢ j → other i ≡ j
other_of i j h k d = ground arith

module _ (max : ℕ) where
  pub record Good (s : System) : Type 0 where
    pub flags : (i : ℕ) → i < 2 → s.states i ≡ raises (s.threads i).place
    pub turn_lt : s.turn < 2
    pub guard :
        (i j : ℕ)
        → i < 2
        → j < 2
        → i ≢ j
        → holds (s.threads i).place ≡ 1
        → contends (s.threads j).place ≡ 1
        → (s.turn ≡ i) × (holds (s.threads j).place ≡ 0)
    pub fits : (i : ℕ) → i < 2 → Fits max s.counter (s.threads i).place (s.threads i).round
    pub counted : s.counter ≡ total tally 2 s.threads

  abbrev pub first : System
  first = create max

  pub create-Good : Good first
  create-Good = record {
    flags = λ i h. refl;
    turn_lt = omega arith;
    guard = λ i j h k d p q. absurd (ground arith);
    fits = λ i h. omega arith;
    counted = sym (rw (total_const tally 2 0 first.threads (λ i h. refl)) (omega arith));
  }

  module _ (s : System) (g : Good s) (i : ℕ) (h : i < 2) where
    open g use {flags, turn_lt, guard, fits, counted}

    abbrev pub result : Move
    result = count max i s

    abbrev pub next : System
    next = record {
      states = assign s.states i result.state;
      turn = result.turn;
      counter = result.counter;
      threads = assign s.threads i result.thread;
    }

    pub next_flags : (j : ℕ) → j < 2 → next.states j ≡ raises (next.threads j).place
    unfolding count
    next_flags j k = elim (eq-cases i j) [
      | inl e ↦
          rw (← e, assign_self s.threads i result.thread, assign_self s.states i result.state)
            (move-raises max i (s.states i) (s.states (other i)) s.turn s.counter
              (s.threads i).round (s.threads i).place (flags i h))
      | inr d ↦
          rw (assign_other s.threads i j result.thread d, assign_other s.states i j result.state d)
            (flags j k)
    ]

    -- The thread that moves is inside afterwards, another one contends.
    pub guard_mover :
        (j : ℕ)
        → j < 2
        → i ≢ j
        → holds result.thread.place ≡ 1
        → contends (s.threads j).place ≡ 1
        → (result.turn ≡ i) × (holds (s.threads j).place ≡ 0)
    unfolding count
    guard_mover j k d p q =
        elim (move-holds max i (s.states i) (s.states (other i)) s.turn s.counter
          (s.threads i).round (s.threads i).place turn_lt h p) [
            | inl inside ↦
                let before = guard i j h k d inside q in
                let same =
                  move-holds_turn max i (s.states i) (s.states (other i)) s.turn s.counter
                    (s.threads i).round (s.threads i).place inside in
                (omega (arith, before.0, same), before.1)
            | inr (inl clear, rest) ↦
                absurd (
                  omega
                    (arith, clear_other clear, flags j k, contends-raises (s.threads j).place q))
            | inr (inr mine, (contending, same)) ↦ (
              omega (arith, mine, same),
              holds-cases (s.threads j).place (λ inside.
                  d (omega (arith, mine, (guard j i k h (λ e. d (sym e)) inside contending).0))),
            )
          ]
      where
        clear_other : s.states (other i) ≡ 0 → s.states j ≡ 0
        clear_other clear = rw (other_of i j h k d) at clear

    -- The thread that moves contends afterwards, another one is inside.
    pub guard_other :
        (j : ℕ)
        → j < 2
        → j ≢ i
        → holds (s.threads j).place ≡ 1
        → contends result.thread.place ≡ 1
        → (result.turn ≡ j) × (holds result.thread.place ≡ 0)
    unfolding count
    guard_other j k d p q =
        elim (move-contends max i (s.states i) (s.states (other i)) s.turn s.counter
          (s.threads i).round (s.threads i).place q) [
            | inr (away, out) ↦ (omega (arith, away, other_of i j h k (λ e. d (sym e))), out)
            | inl (contending, same) ↦
                let before = guard j i k h d p contending in
                (
                  omega (arith, same, before.0),
                  holds-cases result.thread.place (λ inside.
                      elim (move-holds max i (s.states i) (s.states (other i)) s.turn s.counter
                        (s.threads i).round (s.threads i).place turn_lt h inside) [
                          | inl was ↦ omega (arith, was, before.1)
                          | inr (inl clear, rest) ↦ omega (
                            arith,
                            clear_other clear,
                            flags j k,
                            contends-raises (s.threads j).place
                                (holds-contends (s.threads j).place p),
                          )
                          | inr (inr mine, rest) ↦ d (omega (arith, mine, before.0))
                        ]),
                )
          ]
      where
        clear_other : s.states (other i) ≡ 0 → s.states j ≡ 0
        clear_other clear = rw (other_of i j h k (λ e. d (sym e))) at clear
