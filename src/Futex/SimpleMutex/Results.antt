-- ===== src/Futex/SimpleMutex/Results.antt =====
-- futex/simple_mutex.c: the lock has the laws of a lock.
use concurrencia.Base.{
  ℕ, ◌<◌, ◌≡◌, refl, sym, ◌⊎◌, inl, inr, true, false, arith, assign, total, total_const, Bool-cases,
}
use concurrencia.Lock.{is_inside, is_busy, Laws}
use concurrencia.Lock.Tokens.{OneToken-first, one_inside, lower_total}
use concurrencia.Futex.Calls.{Kernel, Documented}
use concurrencia.Futex.Sleepers
use concurrencia.Futex.SimpleMutex.Defs.{Local, SimpleFutex, step, phase, lock}
use concurrencia.Futex.SimpleMutex.Invariant.{
  owns, dozes, is_on, waits, rank, token, orderly, Inv, keep,
}

module _ (kernel : Kernel) where
  module _ (n : ℕ) (documented : Documented kernel) where
    nobody_owns :
        (s : SimpleFutex kernel) (ps : ℕ → Local)
        → Inv kernel n documented s ps
        → ((i : ℕ) → i < n → is_inside (phase (ps i)) ≡ false)
        → s.locked ≡ 0
    nobody_owns s ps inv nobody =
        omega (arith, inv.one.one, total_const owns n 0 ps (λ i h. away (ps i) (nobody i h)))
      where
        away : (p : Local) → is_inside (phase p) ≡ false → owns p ≡ 0
        away p e = ground arith

    -- While the lock is free, a call that does not sleep comes nearer to its return.
    nearer :
        (i : ℕ) (s : SimpleFutex kernel) (p : Local)
        → s.locked ≡ 0
        → is_busy (phase p) ≡ true
        → Sleepers.is_asleep kernel dozes s.queue i p ≡ false
        → (is_busy (phase (step kernel i 0 s p).1) ≡ false)
          ⊎ (rank (step kernel i 0 s p).1 < rank p)
    unfolding step
    nearer i s p e b a = ground arith

    awake_one :
        (j : ℕ) (s : SimpleFutex kernel) (ps : ℕ → Local)
        → j < n
        → Inv kernel n documented s ps
        → ((i : ℕ) → i < n → is_inside (phase (ps i)) ≡ false)
        → is_busy (phase (ps j)) ≡ true
        → (i : ℕ) × (i < n)
          × (is_busy (phase (ps i)) ≡ true)
          × (Sleepers.is_asleep kernel dozes s.queue i (ps i) ≡ false)
    awake_one j s ps h inv nobody b =
        elim (Bool-cases (Sleepers.is_asleep kernel dozes s.queue j (ps j))) [
          | inr awake ↦ (j, h, b, awake)
          | inl dreams ↦
              let (i, l, on) = inv.live j h dreams in
              (i, l, busy_of (ps i) (on.0) (nobody i l), on.1)
        ]
      where
        busy_of :
            (p : Local) → is_on p ≡ true → is_inside (phase p) ≡ false → is_busy (phase p) ≡ true
        busy_of p a e = ground arith

    advance :
        (j : ℕ) (s : SimpleFutex kernel) (ps : ℕ → Local)
        → j < n
        → Inv kernel n documented s ps
        → ((i : ℕ) → i < n → is_inside (phase (ps i)) ≡ false)
        → is_busy (phase (ps j)) ≡ true
        → (i c : ℕ) × (i < n)
          × (is_busy (phase (ps i)) ≡ true)
          × ((is_busy (phase (step kernel i c s (ps i)).1) ≡ false)
              ⊎ (total rank n (assign ps i (step kernel i c s (ps i)).1) < total rank n ps))
    advance j s ps h inv nobody b =
        let (i, l, busy, awake) = awake_one j s ps h inv nobody b in
        (
          i,
          0,
          l,
          busy,
          lower_total n (lock kernel) rank i 0 s ps l
              (nearer i s (ps i) (nobody_owns s ps inv nobody) busy awake),
        )

    init : Inv kernel n documented (lock kernel).shared (lock kernel).local
    init = record {
      one = OneToken-first n (lock kernel) (token kernel);
      tucked = λ j a. absurd (cc (a, documented.asleep-empty j));
      counted = sym (rw (total_const waits n 0 (lock kernel).local (λ i h. refl)) (omega arith));
      live = λ k h a. absurd (cc a);
    }

    pub lock_laws : Laws n (lock kernel)
    lock_laws = record {
      Inv = Inv kernel n documented;
      init = init;
      begins = λ i. refl;
      keep = λ i c s ps h inv. keep kernel n documented i c h s ps inv;
      exclusive =
          λ i j s ps h k inv. one_inside n (lock kernel) (token kernel) i j s ps h k inv.one;
      orderly = orderly kernel;
      measure = λ s ps. total rank n ps;
      advance = advance;
    }
