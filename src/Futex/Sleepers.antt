-- ===== src/Futex/Sleepers.antt =====
-- The threads that sleep on a futex stand at the wait, and what each step does to them.
use concurrencia.Base.{
  ℕ, ◌<◌, ◌≡◌, refl, sym, subst, ◌≢◌, ◌⊎◌, inl, inr, Bool, true, false, ◌&&◌, arith, assign,
  assign_self, assign_other, assign_unchanged, eq-cases,
}
use concurrencia.Futex.Calls.{Kernel, Documented}

module _ (kernel : Kernel) {L : Type 0} (dozes : L → Bool) where
  open kernel use {Queue, asleep, sleep, wake, leave}

  -- Thread `i` sleeps: it stands at the wait, and the kernel has not woken it.
  abbrev pub is_asleep : Queue → ℕ → L → Bool
  is_asleep q i p = dozes p && asleep q i

  pub dozes_of : (q : Queue) (i : ℕ) (p : L) → is_asleep q i p ≡ true → dozes p ≡ true
  dozes_of q i p a = ground arith

  pub asleep_of : (q : Queue) (i : ℕ) (p : L) → is_asleep q i p ≡ true → asleep q i ≡ true
  asleep_of q i p a = ground arith

  -- What a step of thread `i` does to the sleepers.
  pub data Stirs (i : ℕ) (q : Queue) (p : L) (q' : Queue) (p' : L) : Type 0 where
    keeps : q' ≡ q → (dozes p ≡ true → dozes p' ≡ true) → Stirs i q p q' p'
    falls : q' ≡ sleep i q → dozes p' ≡ true → Stirs i q p q' p'
    rises : q' ≡ leave i q → Stirs i q p q' p'
    rouses :
        (m c : ℕ) → 0 < m → q' ≡ wake m c q → dozes p ≡ false → dozes p' ≡ false → Stirs i q p q' p'

  module _ (n : ℕ) (documented : Documented kernel) where
    open documented use {asleep-sleep, asleep-leave, wake-asleep, wake-some}

    -- Every sleeper is a thread at the wait.
    abbrev pub Tucked : Queue → (ℕ → L) → Type 0
    Tucked q ps = (j : ℕ) → asleep q j ≡ true → (j < n) × (dozes (ps j) ≡ true)

    -- Some thread is on its way that does not sleep.
    abbrev pub Someone : (L → Bool) → Queue → (ℕ → L) → Type 0
    Someone on r qs = (j : ℕ) × (j < n) × ((on (qs j) ≡ true) × (is_asleep r j (qs j) ≡ false))

    -- If a thread sleeps, another one is on its way.
    abbrev pub Live : (L → Bool) → Queue → (ℕ → L) → Type 0
    Live on r qs = (k : ℕ) → k < n → is_asleep r k (qs k) ≡ true → Someone on r qs

    module _ (i : ℕ) (h : i < n) (q q' : Queue) (ps : ℕ → L) (p' : L) (tucked : Tucked q ps) where
      -- No other thread falls asleep.
      pub asleep_before :
          (j : ℕ) → i ≢ j → Stirs i q (ps i) q' p' → asleep q' j ≡ true → asleep q j ≡ true
      asleep_before j d (keeps e f) a = rw e at a
      asleep_before j d (falls e f) a = let b = rw e at a in ground (arith, asleep-sleep i j q, b)
      asleep_before j d (rises e) a = let b = rw e at a in ground (arith, asleep-leave i j q, b)
      asleep_before j d (rouses m c l e f g) a = wake-asleep m c j q (rw e at a)

      asleep_self : Stirs i q (ps i) q' p' → asleep q' i ≡ true → dozes p' ≡ true
      asleep_self (keeps e f) a = f ((tucked i (rw e at a)).1)
      asleep_self (falls e f) a = f
      asleep_self (rises e) a = let b = rw e at a in ground (arith, asleep-leave i i q, b)
      asleep_self (rouses m c l e f g) a =
          let b = (tucked i (wake-asleep m c i q (rw e at a))).1 in absurd (cc (b, f))

      pub Tucked-step : Stirs i q (ps i) q' p' → Tucked q' (assign ps i p')
      Tucked-step st j a = elim (eq-cases i j) [
        | inl e ↦ (rw e at h, rw (← e, assign_self ps i p') (asleep_self st (rw (← e) at a)))
        | inr d ↦ rw (assign_other ps i j p' d) (tucked j (asleep_before j d st a))
      ]

      -- A wake wakes another thread, if any sleeps.
      pub woken :
          (m c k : ℕ)
          → 0 < m
          → q' ≡ wake m c q
          → dozes (ps i) ≡ false
          → asleep q k ≡ true
          → (j : ℕ) × (j < n) × (i ≢ j) × (dozes (ps j) ≡ true) × (asleep q' j ≡ false)
      woken m c k l e awake a =
          let (j, (b, b')) = wake-some m c k q l a in
          let (below, doze) = tucked j b in (j, below, apart j doze, doze, rw e b')
        where
          apart : (j : ℕ) → dozes (ps j) ≡ true → i ≢ j
          apart j doze s = absurd (cc (awake, rw (← s) at doze))

      module _ (on : L → Bool) where
        pub self-Live : on p' ≡ true → dozes p' ≡ false → Live on q' (assign ps i p')
        self-Live a b k l e = (i, h, (rw (assign_self ps i p') a, rw (assign_self ps i p', b) refl))

        -- A step that changes nothing.
        pub same-Live : ps i ≡ p' → Live on q ps → Live on q (assign ps i p')
        same-Live e before = subst (λ qs. Live on q qs) (sym (assign_unchanged ps i p' e)) before

        pub other-Live :
            (j : ℕ)
            → j < n
            → i ≢ j
            → on (ps j) ≡ true
            → is_asleep q' j (ps j) ≡ false
            → Live on q' (assign ps i p')
        other-Live j l d a b k m e =
            (j, l, (rw (assign_other ps i j p' d) a, rw (assign_other ps i j p' d) b))

        pub rouses-Live :
            (m c : ℕ)
            → 0 < m
            → q' ≡ wake m c q
            → dozes (ps i) ≡ false
            → dozes p' ≡ false
            → ((p : L) → dozes p ≡ true → on p ≡ true)
            → Live on q' (assign ps i p')
        rouses-Live m c l e awake awake' dozing k b a =
            let (j, below, apart, doze, up) = woken m c k l e awake (before k b a) in
            other-Live j below apart (dozing (ps j) doze) (ground (arith, doze, up)) k b a
          where
            before : (k : ℕ) → k < n → is_asleep q' k (assign ps i p' k) ≡ true → asleep q k ≡ true
            before k b a = elim (eq-cases i k) [
              | inl s ↦ absurd (
                  cc
                    (awake', rw (← s, assign_self ps i p') at (dozes_of q' k (assign ps i p' k) a)))
              | inr d ↦
                  asleep_before k d (rouses m c l e awake awake')
                    (asleep_of q' k (assign ps i p' k) a)
            ]

      -- Another thread that was on its way still is.
      pub kept-Live :
          (on on' : L → Bool)
          → q' ≡ q
          → (on (ps i) ≡ false) ⊎ (is_asleep q i (ps i) ≡ true)
          → is_asleep q i p' ≡ false
          → ((j : ℕ) → j < n → i ≢ j → on (ps j) ≡ true → on' (ps j) ≡ true)
          → Live on q ps
          → Live on' q' (assign ps i p')
      kept-Live on on' e off awake stays before k l a =
          let (j, m, (b, up)) = before k l (was_asleep k (rw e at a)) in
          other-Live on' j m (apart j b up) (stays j m (apart j b up) b) (rw e up) k l a
        where
          was_asleep :
              (k : ℕ) → is_asleep q k (assign ps i p' k) ≡ true → is_asleep q k (ps k) ≡ true
          was_asleep k a = elim (eq-cases i k) [
            | inl s ↦ absurd (cc (awake, rw (← s, assign_self ps i p') at a))
            | inr d ↦ rw (assign_other ps i k p' d) at a
          ]

          apart : (j : ℕ) → on (ps j) ≡ true → is_asleep q j (ps j) ≡ false → i ≢ j
          apart j b up s = elim off [
            | inl no_hand ↦ cc (no_hand, rw (← s) at b)
            | inr dreams ↦ cc (dreams, up, s)
          ]
