-- ===== src/Futex/Drepper/Results.antt =====
-- futex/mutex_drepper.c: the lock has the laws of a lock.
use concurrencia.Base.{
  ℕ, ◌<◌, ◌≡◌, refl, ◌⊎◌, inl, inr, true, false, arith, assign, total, total_pos, Bool-cases,
  lt-cases,
}
use concurrencia.Lock.{is_inside, is_busy, Laws}
use concurrencia.Lock.Tokens.{OneToken-first, one_inside, lower_total}
use concurrencia.Futex.Calls.{Kernel, Documented}
use concurrencia.Futex.Sleepers
use concurrencia.Futex.Drepper.Defs.{Local, Mutex, step, phase, lock}
use concurrencia.Futex.Drepper.Invariant.{owns, dozes, is_on, rank, token, orderly, Inv, keep}

module _ (kernel : Kernel) where
  module _ (n : ℕ) (documented : Documented kernel) where
    -- A call that has the lock comes nearer to its return, and one that does not sleep while the lock
    -- is free.
    nearer :
        (i : ℕ) (s : Mutex kernel) (p : Local)
        → (owns p ≡ 1) ⊎ ((s.futex ≡ 0) × (Sleepers.is_asleep kernel dozes s.queue i p ≡ false))
        → is_busy (phase p) ≡ true
        → (is_busy (phase (step kernel i 0 s p).1) ≡ false)
          ⊎ (rank (step kernel i 0 s p).1 < rank p)
    unfolding step
    nearer i s p a b = ground arith

    -- A call that can go on: that of the thread that has the lock, or else one that does not sleep.
    ready :
        (j : ℕ) (s : Mutex kernel) (ps : ℕ → Local)
        → j < n
        → Inv kernel n documented s ps
        → ((i : ℕ) → i < n → is_inside (phase (ps i)) ≡ false)
        → is_busy (phase (ps j)) ≡ true
        → (i : ℕ) × (i < n)
          × (is_busy (phase (ps i)) ≡ true)
          × ((owns (ps i) ≡ 1)
              ⊎ ((s.futex ≡ 0) × (Sleepers.is_asleep kernel dozes s.queue i (ps i) ≡ false)))
    ready j s ps h inv nobody b = elim (lt-cases 0 (total owns n ps)) [
      | inl taken ↦
          let (i, l, o) = total_pos owns n ps taken in
          (i, l, leaves (ps i) o (nobody i l), inl (one_of (ps i) o))
      | inr not_taken ↦
          let unlocked : s.futex ≡ 0 = omega (arith, inv.one.one) in
          elim (Bool-cases (Sleepers.is_asleep kernel dozes s.queue j (ps j))) [
            | inr awake ↦ (j, h, b, inr (unlocked, awake))
            | inl dreams ↦
                let (i, l, on) = inv.live j h dreams in
                (i, l, busy_of (ps i) (on.0) (nobody i l), inr (unlocked, on.1))
          ]
    ]
      where
        leaves : (p : Local) → 0 < owns p → is_inside (phase p) ≡ false → is_busy (phase p) ≡ true
        leaves p o e = ground arith

        one_of : (p : Local) → 0 < owns p → owns p ≡ 1
        one_of p o = ground arith

        busy_of :
            (p : Local)
            → is_on s.futex p ≡ true
            → is_inside (phase p) ≡ false
            → is_busy (phase p) ≡ true
        busy_of p a e = ground arith

    advance :
        (j : ℕ) (s : Mutex kernel) (ps : ℕ → Local)
        → j < n
        → Inv kernel n documented s ps
        → ((i : ℕ) → i < n → is_inside (phase (ps i)) ≡ false)
        → is_busy (phase (ps j)) ≡ true
        → (i c : ℕ) × (i < n)
          × (is_busy (phase (ps i)) ≡ true)
          × ((is_busy (phase (step kernel i c s (ps i)).1) ≡ false)
              ⊎ (total rank n (assign ps i (step kernel i c s (ps i)).1) < total rank n ps))
    advance j s ps h inv nobody b =
        let (i, l, busy, can) = ready j s ps h inv nobody b in
        (i, 0, l, busy, lower_total n (lock kernel) rank i 0 s ps l (nearer i s (ps i) can busy))

    init : Inv kernel n documented (lock kernel).shared (lock kernel).local
    init = record {
      one = OneToken-first n (lock kernel) (token kernel);
      tucked = λ j a. absurd (cc (a, documented.asleep-empty j));
      live = λ k h a. absurd (cc a);
    }

    pub lock_laws : Laws n (lock kernel)
    lock_laws = record {
      Inv = Inv kernel n documented;
      init = init;
      begins = λ i. refl;
      keep = λ i c s ps h inv. keep kernel n documented i c h s ps inv;
      exclusive =
          λ i j s ps h k inv. one_inside n (lock kernel) (token kernel) i j s ps h k inv.one;
      orderly = orderly kernel;
      measure = λ s ps. total rank n ps;
      advance = advance;
    }
